-- ===== src/Cmd/Root.antt =====
-- What runs before every command (the root command of cmd/monod/cmd/root.go, InitAppConfig of
-- mono_config.go), and the command `monod init` (monoInitCmd of commands.go).
pub mod Init
use mono_chain.Prelude.{ℕ, ◌≡◌, ◌≢◌, Option, none, some, List, [], ◌∷◌}
use mono_chain.Sdk.Outcome.{Result, ok, Action, lift, ◌>>=◌, ◌>>◌}
use mono_chain.Cmd.Text.{Text, codes}
use mono_chain.Cmd.NetworkId.{FlagSet, set_network_id_flag, resolve_evm_chain_id}

-- A configuration of a library: the field that the code sets, and the rest.
pub record ServerConfig : Type 0 where
  pub min_gas_prices : Text
  pub rest : List ℕ

pub record EvmConfig : Type 0 where
  pub evm_chain_id : ℕ
  pub rest : List ℕ

pub record MonoAppConfig : Type 0 where
  pub config : ServerConfig
  pub evm : EvmConfig
  pub json_rpc : List ℕ
  pub tls : List ℕ

-- The default configurations of the libraries.
pub record Defaults : Type 0 where
  pub server : ServerConfig
  pub evm : EvmConfig
  pub json_rpc : List ℕ
  pub tls : List ℕ

-- The client context and the home directory, and what the SDK does with them.
pub record Client : Type 1 where
  pub defaults : Defaults
  pub Ctx : Type 0
  pub read_persistent_command_flags : Action Ctx (Unit {0})
  pub read_from_client_config : Action Ctx (Unit {0})
  pub set_cmd_client_context_handler : Action Ctx (Unit {0})
  pub intercept_configs_pre_run_handler : MonoAppConfig → Action Ctx (Unit {0})
  pub init_run_e : FlagSet → Action Ctx (Unit {0})
  -- app.toml, and the chain id of genesis.json
  pub app_config : Ctx → Option MonoAppConfig
  pub genesis_chain_id : Ctx → Option Text
  -- The steps before it write no app.toml; it does where there is none.
  pub read_persistent_lem :
      (c : Ctx) → app_config (read_persistent_command_flags c).1 ≡ app_config c
  pub read_from_client_config_lem :
      (c : Ctx) → app_config (read_from_client_config c).1 ≡ app_config c
  pub set_cmd_client_context_lem :
      (c : Ctx) → app_config (set_cmd_client_context_handler c).1 ≡ app_config c
  pub intercept_configs_lem :
      (cfg : MonoAppConfig) (c : Ctx)
      → (intercept_configs_pre_run_handler cfg c).0 ≡ ok tt
      → app_config c ≡ none
      → app_config (intercept_configs_pre_run_handler cfg c).1 ≡ some cfg
  -- `init` of x/genutil leaves app.toml alone, and takes the chain id of its flag unless it is empty.
  pub init_run_e_lem :
      (fs : FlagSet) (c : Ctx)
      → (init_run_e fs c).0 ≡ ok tt
      → (app_config (init_run_e fs c).1 ≡ app_config c)
        × (fs.chain_id ≢ [] → genesis_chain_id (init_run_e fs c).1 ≡ some fs.chain_id)

-- A command with its flags.
module _ (client : Client) where
  pub record Command : Type 0 where
    pub flags : FlagSet
    pub ctx : client.Ctx

module _ {client : Client} where
  abbrev pub on_ctx : {A : Type 0} → Action client.Ctx A → Action (Command client) A
  on_ctx m cmd = let (r, c) = m cmd.ctx in (r, record cmd { ctx = c })

  abbrev pub on_flags : {A : Type 0} → Action FlagSet A → Action (Command client) A
  on_flags m cmd = let (r, fs) = m cmd.flags in (r, record cmd { flags = fs })

module _ (client : Client) (default_evm_chain_id : ℕ) where
  -- `InitAppConfig`, without the template
  abbrev pub init_app_config : (evm_chain_id : ℕ) → MonoAppConfig
  init_app_config evm_chain_id = record {
    config = record (client.defaults.server) { min_gas_prices = codes "0alyth" };
    evm = record (client.defaults.evm) { evm_chain_id = evm_chain_id };
    json_rpc = client.defaults.json_rpc;
    tls = client.defaults.tls;
  }

  -- `PersistentPreRunE` of the root command
  unfoldable pub persistent_pre_run_e : Action (Command client) (Unit {0})
  unfolding resolve_evm_chain_id
  persistent_pre_run_e = do
    on_ctx client.read_persistent_command_flags
    on_ctx client.read_from_client_config
    on_ctx client.set_cmd_client_context_handler
    evm_chain_id ← λ cmd. (resolve_evm_chain_id default_evm_chain_id cmd.flags, cmd)
    on_ctx (client.intercept_configs_pre_run_handler (init_app_config evm_chain_id))

  -- `RunE` that `monoInitCmd` puts around the one of the SDK
  unfoldable pub mono_init_run_e : Action (Command client) (Unit {0})
  unfolding set_network_id_flag
  mono_init_run_e = do on_flags set_network_id_flag; λ cmd. on_ctx (client.init_run_e cmd.flags) cmd

  -- `monod init`
  unfoldable pub mono_init : Action (Command client) (Unit {0})
  unfolding persistent_pre_run_e mono_init_run_e
  mono_init = persistent_pre_run_e >> mono_init_run_e

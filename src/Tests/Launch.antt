-- ===== src/Tests/Launch.antt =====
-- The command `monod init` in a home directory in memory.
use mono_chain.Prelude.{ℕ, ◌≡◌, ◌≢◌, refl, ap, Option, none, some, [], ◌∷◌}
use mono_chain.Sdk.Outcome.{ok, ◌>>=◌}
use mono_chain.Cmd.Text.{
  Text, codes, byte_length, is_space, trim_left, trim_right, trim_space, value_from, all_digits,
}
use mono_chain.Cmd.ChainId.{parse_chain_id, evmos_chain_id, group, separator, at_end}
use mono_chain.Cmd.ChainId.Grammar.{IsChainId}
use mono_chain.Cmd.NetworkId.{set_network_id_flag, resolve_evm_chain_id}
use mono_chain.Cmd.Root.{
  Client, Command, MonoAppConfig, Defaults, persistent_pre_run_e, mono_init_run_e, mono_init,
}
use mono_chain.Cmd.Root.Init.{IsFor, mono_init_agrees}
use mono_chain.Tests.Cli.{mono_testnet, testnet_flags}

abbrev plain_defaults : Defaults
plain_defaults = record {
  server = record { min_gas_prices = []; rest = [] };
  evm = record { evm_chain_id = 262144; rest = [] };
  json_rpc = [];
  tls = [];
}

-- app.toml and the chain id of genesis.json
abbrev Home : Type 0
Home = Option MonoAppConfig × Option Text

abbrev first_written : MonoAppConfig → Option MonoAppConfig → Option MonoAppConfig
first_written cfg none = some cfg
first_written cfg (some old) = some old

first_written-none :
    (cfg : MonoAppConfig) (o : Option MonoAppConfig) → o ≡ none → first_written cfg o ≡ some cfg
first_written-none cfg none e = refl
first_written-none cfg (some old) e = cc

abbrev chain_id_or : Text → Text
chain_id_or [] = codes "test-chain"
chain_id_or (c ∷ cs) = c ∷ cs

chain_id_or-full : (t : Text) → t ≢ [] → chain_id_or t ≡ t
chain_id_or-full [] full = absurd (full refl)
chain_id_or-full (c ∷ cs) full = refl

abbrev home_client : Client
home_client = record {
  defaults = plain_defaults;
  Ctx = Home;
  read_persistent_command_flags = λ c. (ok tt, c);
  read_from_client_config = λ c. (ok tt, c);
  set_cmd_client_context_handler = λ c. (ok tt, c);
  intercept_configs_pre_run_handler = λ cfg c. (ok tt, (first_written cfg c.0, c.1));
  init_run_e = λ fs c. (ok tt, (c.0, some (chain_id_or fs.chain_id)));
  app_config = λ c. c.0;
  genesis_chain_id = λ c. c.1;
  read_persistent_lem = λ c. refl;
  read_from_client_config_lem = λ c. refl;
  set_cmd_client_context_lem = λ c. refl;
  intercept_configs_lem = λ cfg c ran empty. first_written-none cfg c.0 empty;
  init_run_e_lem = λ fs c ran. (refl, λ full. ap some (chain_id_or-full fs.chain_id full));
}

abbrev init_testnet : Command home_client
init_testnet = record { flags = testnet_flags; ctx = (none, none) }

init_runs : (mono_init home_client 262144 init_testnet).0 ≡ ok tt
unfolding mono_init persistent_pre_run_e mono_init_run_e set_network_id_flag resolve_evm_chain_id
    parse_chain_id evmos_chain_id group separator at_end is_space trim_left trim_right byte_length
    value_from all_digits ◌>>=◌
init_runs = refl

mono_init_agrees_example :
    (n : ℕ) × IsChainId (trim_space mono_testnet) n
    × ((cfg : MonoAppConfig) × ((mono_init home_client 262144 init_testnet).1.ctx.0 ≡ some cfg)
        × IsFor home_client 262144 n cfg)
    × ((mono_init home_client 262144 init_testnet).1.ctx.1 ≡ some mono_testnet)
mono_init_agrees_example =
    mono_init_agrees home_client 262144 init_testnet mono_testnet refl (λ e. cc) refl init_runs

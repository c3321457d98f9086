-- ===== src/Cmd/MultiNode.antt =====
-- cmd/monod/cmd/testnet_multi_node.go: the files of a testnet of several nodes. What the command
-- calls on the operating system, the keyring, the codecs, x/genutil and CometBFT is an interface.
pub mod Args
pub mod Files
pub mod Setup
pub mod Genesis
pub mod Run
pub mod Ports
pub mod Canonical
pub mod Supply
pub mod Names
pub mod Listeners
pub mod Copies
pub mod Built
use mono_chain.Prelude.{ℕ, ◌+◌, ◌<◌, ◌≡◌, ◌≢◌, Bool, String, Option, some, List, [], ◌∷◌, ◌++◌}
use mono_chain.Prelude.Int.{ℤ}
use mono_chain.Sdk.Outcome.{Result, ok, Action}
use mono_chain.Sdk.Amounts.{Coin, Dec18, Math, amount_of}
use mono_chain.Sdk.Address.{Address}
use mono_chain.Cmd.Text.{Text, codes}
use mono_chain.Cmd.Paths.{join}
use mathlib.Core.List.{Perm}

abbrev pub Bytes : Type 0
Bytes = List ℕ

-- The fields of `cmtconfig.Config` that the code sets; `rest` is what it leaves alone.
pub record NodeConfig : Type 0 where
  pub root_dir : Text
  pub moniker : Text
  pub rpc_listen_address : Text
  pub persistent_peers : Text
  pub allow_duplicate_ip : Bool
  pub p2p_listen_address : Text
  pub proxy_app : Text
  pub prometheus_listen_addr : Text
  pub prometheus : Bool
  pub rest : Bytes

-- The fields of `srvconfig.Config` that the code sets.
pub record AppConfig : Type 0 where
  pub min_gas_prices : Text
  pub api_enable : Bool
  pub api_address : Text
  pub grpc_address : Text
  pub enable_hostname_label : Bool
  pub telemetry_enabled : Bool
  pub prometheus_retention_time : ℕ
  pub rest : Bytes

pub record CreateValidator : Type 0 where
  pub validator_address : Text
  pub pub_key : Bytes
  pub value : Coin
  pub moniker : Text
  pub rate : Dec18
  pub max_rate : Dec18
  pub max_change_rate : Dec18
  pub min_self_delegation : ℤ

pub record Balance : Type 0 where
  pub address : Text
  pub coins : List Coin

pub record BankGenesis : Type 0 where
  pub balances : List Balance
  pub supply : List Coin
  pub rest : Bytes

pub record AuthGenesis : Type 0 where
  pub accounts : List Bytes
  pub rest : Bytes

-- A genesis file: the chain id, the state of the application, and the time where it is set.
pub record GenesisFile : Type 0 where
  pub chain_id : Text
  pub app_state : Bytes
  pub genesis_time : Option ℕ

-- The genesis state of the modules by their names.
abbrev pub AppGenesis : Type 0
AppGenesis = List (String × Bytes)

pub record Env : Type 1 where
  pub math : Math
  -- the disk with the keyrings on it, the clock and the source of random numbers
  pub State : Type 0
  -- os
  pub mkdir_all : Text → Action State (Unit {0})
  pub remove_all : Text → Action State (Unit {0})
  pub write_file : Text → Bytes → Action State (Unit {0})
  pub open_file : Text → State → Result (Unit {0})
  pub read : Text → State → Result Bytes
  pub create : Text → Action State (Unit {0})
  pub append : Text → Bytes → Action State (Unit {0})
  pub sync : Text → Action State (Unit {0})
  pub getwd : State → Result Text
  -- A file that was created is empty; what is appended stands behind what was there; other files,
  -- and the working directory, stay as they were.
  pub create_lem :
      (file : Text) (s : State)
      → (create file s).0 ≡ ok tt
      → (read file (create file s).1 ≡ ok [])
        × ((other : Text) → other ≢ file → read other (create file s).1 ≡ read other s)
        × (getwd (create file s).1 ≡ getwd s)
  pub append_lem :
      (file : Text) (b : Bytes) (s : State)
      → (append file b s).0 ≡ ok tt
      → ((a : Bytes) → read file s ≡ ok a → read file (append file b s).1 ≡ ok (a ++ b))
        × ((other : Text) → other ≢ file → read other (append file b s).1 ≡ read other s)
        × (getwd (append file b s).1 ≡ getwd s)
  pub sync_lem :
      (file : Text) (s : State)
      → ((other : Text) → read other (sync file s).1 ≡ read other s)
        × (getwd (sync file s).1 ≡ getwd s)
  -- `rand.Intn` is below its argument.
  pub intn : ℕ → State → ℕ × State
  pub intn-lt : (n : ℕ) (s : State) → 0 < n → (intn n s).0 < n
  -- cosmossdk.io/math and the SDK
  pub int_from_string : Text → Option ℤ
  pub power_reduction : ℕ
  pub sort_coins : List Coin → List Coin
  pub account_text : Address → Text
  pub val_address_text : Address → Text
  -- x/genutil, crypto/keyring and client/tx
  pub initialize_node_validator_files : NodeConfig → Action State (Text × Bytes)
  pub Keyring : Type 0
  pub Algo : Type 0
  pub new_keyring : (backend dir : Text) → Action State Keyring
  pub signing_algo : Text → Keyring → Result Algo
  pub generate_save_coin_key : Keyring → (name : Text) → Algo → Action State (Address × Text)
  pub marshal_secret : Text → Result Bytes
  pub Builder : Type 0
  pub pack_key : Bytes → Result Bytes
  pub set_msgs : CreateValidator → Result Builder
  pub set_memo : Text → Builder → Builder
  pub sign : Keyring → (chain_id memo name : Text) → Builder → Action State Builder
  pub encode_tx : Builder → Result Bytes
  -- the configuration files, whose writers panic, and the genesis file of a home directory
  pub default_app_config : AppConfig
  pub write_app_config : Text → AppConfig → Action State (Unit {0})
  pub write_node_config : Text → NodeConfig → Action State (Unit {0})
  pub genesis_file : (root_dir : Text) → Text
  -- the genesis state of the modules
  pub default_genesis : AppGenesis
  pub decode_auth : Bytes → Result AuthGenesis
  pub encode_auth : AuthGenesis → Result Bytes
  pub decode_bank : Bytes → Result BankGenesis
  pub encode_bank : BankGenesis → Result Bytes
  pub pack_accounts : List Address → Result (List Bytes)
  -- `SanitizeGenesisBalances` sorts the balances and their coins.
  pub sanitize_genesis_balances : List Balance → List Balance
  -- `Coins.Add`, which panics where a sum is too large or a list is not sorted
  pub add_coins : List Coin → List Coin → Result (List Coin)
  pub add_coins_lem :
      (a b c : List Coin) (denom : String)
      → add_coins a b ≡ ok c
      → amount_of denom c ≡ amount_of denom a + amount_of denom b
  pub marshal_app_state : AppGenesis → Result Bytes
  -- the genesis files on the disk
  pub genesis_at : Text → State → Option GenesisFile
  pub save_as : Text → GenesisFile → Action State (Unit {0})
  pub now : State → ℕ
  pub app_genesis_from_file : Text → State → Result GenesisFile
  -- It also sets persistent peers in the configuration, and writes that and the genesis file.
  pub gen_app_state_from_config :
      (chain_id gentxs_dir node_id : Text) (val_pub_key : Bytes)
      → GenesisFile
      → Action (State × NodeConfig) Bytes
  pub export_genesis_file_with_time : Text → GenesisFile → Action State (Unit {0})
  pub gen_app_state_lem :
      (chain_id dir node_id : Text) (key : Bytes) (g : GenesisFile) (s : State) (c : NodeConfig)
      → let after = (gen_app_state_from_config chain_id dir node_id key g (s, c)).1 in
        (after.1.root_dir ≡ c.root_dir)
        × ((file : Text)
            → file ≢ genesis_file c.root_dir
            → genesis_at file after.0 ≡ genesis_at file s)
  pub export_genesis_file_lem :
      (file : Text) (g : GenesisFile) (s : State)
      → (export_genesis_file_with_time file g s).0 ≡ ok tt
      → let after = (export_genesis_file_with_time file g s).1 in
        (genesis_at file after ≡ some g)
        × ((other : Text) → other ≢ file → genesis_at other after ≡ genesis_at other s)
  -- No genesis file is a `config.toml`.
  pub write_node_config_lem :
      (root_dir home : Text) (c : NodeConfig) (s : State)
      → let file = join (root_dir ∷ codes "config" ∷ codes "config.toml" ∷ []) in
        genesis_at (genesis_file home) (write_node_config file c s).1
        ≡ genesis_at (genesis_file home) s

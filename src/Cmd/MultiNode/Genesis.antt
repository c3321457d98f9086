-- ===== src/Cmd/MultiNode/Genesis.antt =====
-- initGenFiles and collectGenFiles of testnet_multi_node.go.
use mono_chain.Prelude.{
  ℕ, zero, suc, ◌+◌, ◌*◌, true, String, Option, none, some, List, [], ◌∷◌, ◌++◌,
}
use mono_chain.Prelude.Int.{pos, ◌-ℤ◌}
use mono_chain.Sdk.Outcome.{Result, ok, on_ok, must, Action, pure, lift, ◌>>=◌, ◌>>◌}
use mono_chain.Sdk.Amounts.{Coin}
use mono_chain.Sdk.Address.{Address}
use mono_chain.Cmd.Text.{Text, codes}
use mono_chain.Cmd.Decimal.{itoa}
use mono_chain.Cmd.Paths.{join}
use mono_chain.App.Blocks.{section, with_section}
use mono_chain.Cmd.MultiNode.{Env, Bytes, NodeConfig, BankGenesis, Balance, GenesisFile, AppGenesis}
use mono_chain.Cmd.MultiNode.Args.{text_at, InitArgs}
use mono_chain.Cmd.MultiNode.Files.{Ctx, on_state, index}
use mono_chain.Cmd.MultiNode.Setup.{node_dir_name, node_dir, joined_gentxs_dir}

-- `appGenState[name]`
abbrev pub raw_section : String → AppGenesis → Bytes
raw_section name g = elim (section name g) [ none ↦ [] | some raw ↦ raw ]

-- What is set of the configuration of node `i` before its genesis file is read.
abbrev pub collect_config : InitArgs → ℕ → NodeConfig → NodeConfig
collect_config args i c = record c { moniker = node_dir_name args i; root_dir = node_dir args i }

-- The addresses of node `i`.
unfoldable pub network_config : InitArgs → (persistent_peers : Text) → ℕ → NodeConfig → NodeConfig
network_config args persistent_peers i c = record c {
  persistent_peers = persistent_peers;
  allow_duplicate_ip = true;
  p2p_listen_address = codes "tcp://0.0.0.0:" ++ itoa (pos 26656 -ℤ pos (3 * i));
  rpc_listen_address = codes "tcp://127.0.0.1:" ++ text_at (args.ports i);
  proxy_app = codes "tcp://127.0.0.1:" ++ itoa (pos 26658 -ℤ pos (3 * i));
  prometheus_listen_addr = codes ":" ++ itoa (pos (26660 + i));
  prometheus = true;
}

-- `if appState == nil { appState = nodeAppState }`
abbrev pub first_state : Option Bytes → Bytes → Bytes
first_state none node_app_state = node_app_state
first_state (some app_state) node_app_state = app_state

module _ (env : Env) where
  -- The loop that adds up the supply.
  unfoldable pub add_supply : List Balance → List Coin → Result (List Coin)
  add_supply [] supply = ok supply
  add_supply (bal ∷ bals) supply = on_ok (env.add_coins supply bal.coins) (add_supply bals)

  -- The genesis state of x/bank with the balances and their supply.
  unfoldable pub fill_bank : List Balance → BankGenesis → Result BankGenesis
  unfolding add_supply
  fill_bank gen_balances bank =
      let balances : List Balance = env.sanitize_genesis_balances gen_balances in
      on_ok (add_supply balances bank.supply)
        λ supply. ok (record bank { balances = balances; supply = supply })

  -- The sections of the accounts and the balances; the codec panics on an error.
  unfoldable pub fill_genesis : List Address → List Balance → AppGenesis → Result AppGenesis
  unfolding fill_bank section with_section
  fill_genesis gen_accounts gen_balances g =
      on_ok (must (env.decode_auth (raw_section "auth" g))) λ auth.
        on_ok (env.pack_accounts gen_accounts) λ accounts.
          on_ok (must (env.encode_auth (record auth { accounts = accounts }))) λ auth_raw.
            on_ok (must (env.decode_bank (raw_section "bank" (with_section "auth" auth_raw g))))
              λ bank. on_ok (fill_bank gen_balances bank) λ filled.
                on_ok (must (env.encode_bank filled))
                  λ bank_raw. ok (with_section "bank" bank_raw (with_section "auth" auth_raw g))

  -- `genDoc.SaveAs(genFiles[i])` for each validator; `left` rounds are left.
  unfoldable pub save_docs : GenesisFile → List Text → (left i : ℕ) → Action env.State (Unit {0})
  save_docs doc gen_files zero i = pure tt
  save_docs doc gen_files (suc left) i = do
    file ← lift (index gen_files i)
    env.save_as file doc
    save_docs doc gen_files left (suc i)

  -- `initGenFiles`
  unfoldable pub init_gen_files :
      (chain_id : Text)
      → List Address
      → List Balance
      → (gen_files : List Text) (num_validators : ℕ) → Action env.State (Unit {0})
  unfolding fill_genesis save_docs
  init_gen_files chain_id gen_accounts gen_balances gen_files num_validators = do
    app_gen_state ← lift (fill_genesis gen_accounts gen_balances env.default_genesis)
    app_state ← lift (env.marshal_app_state app_gen_state)
    save_docs (record { chain_id = chain_id; app_state = app_state; genesis_time = none }) gen_files
        num_validators 0

  -- The state of the application that x/genutil makes for node `i`, which may change the
  -- configuration.
  abbrev pub gen_app_state :
      InitArgs
      → (chain_id : Text) → ℕ
      → (node_id : Text) (key : Bytes) → GenesisFile
      → Action (Ctx env) Bytes
  gen_app_state args chain_id i node_id key genesis c =
      let (r, s) =
        env.gen_app_state_from_config chain_id (joined_gentxs_dir args i) node_id key genesis
          (c.state, c.config) in
      (r, record { state = s.0; config = s.1 })

  -- One round of the loop of `collectGenFiles`: the state that the next rounds keep.
  unfoldable pub collect_node :
      InitArgs
      → (chain_id : Text) (node_ids : List Text) (val_pub_keys : List Bytes)
        (persistent_peers : Text) (gen_time : ℕ) (app_state : Option Bytes) (i : ℕ)
      → Action (Ctx env) Bytes
  unfolding network_config node_dir
  collect_node args chain_id node_ids val_pub_keys persistent_peers gen_time app_state i = do
    λ c. (ok tt, record c { config = collect_config args i c.config })
    node_id ← lift (index node_ids i)
    val_pub_key ← lift (index val_pub_keys i)
    genesis ← λ c. (env.app_genesis_from_file (env.genesis_file c.config.root_dir) c.state, c)
    node_app_state ← gen_app_state args chain_id i node_id val_pub_key genesis
    λ c. (ok tt, record c { config = network_config args persistent_peers i c.config })
    λ c.
        on_state
          (env.write_node_config
            (join (c.config.root_dir ∷ codes "config" ∷ codes "config.toml" ∷ [])) c.config)
          c
    λ c.
        on_state
          (env.export_genesis_file_with_time (env.genesis_file c.config.root_dir) (record {
            chain_id = chain_id;
            app_state = first_state app_state node_app_state;
            genesis_time = some gen_time;
          }))
          c
    pure (first_state app_state node_app_state)

  unfoldable pub collect_nodes :
      InitArgs
      → (chain_id : Text) (node_ids : List Text) (val_pub_keys : List Bytes)
        (persistent_peers : Text) (gen_time : ℕ) (app_state : Option Bytes) (left i : ℕ)
      → Action (Ctx env) (Unit {0})
  unfolding collect_node
  collect_nodes args chain_id ids keys peers time app_state zero i = pure tt
  collect_nodes args chain_id ids keys peers time app_state (suc left) i = do
    app_state' ← collect_node args chain_id ids keys peers time app_state i
    collect_nodes args chain_id ids keys peers time (some app_state') left (suc i)

  -- `collectGenFiles`
  unfoldable pub collect_gen_files :
      InitArgs
      → (chain_id : Text) (node_ids : List Text) (val_pub_keys : List Bytes)
        (persistent_peers : Text) (num_validators : ℕ)
      → Action (Ctx env) (Unit {0})
  unfolding collect_nodes
  collect_gen_files args chain_id ids keys peers num_validators c =
      collect_nodes args chain_id ids keys peers (env.now c.state) none num_validators 0 c

-- ===== src/Cmd/MultiNode/Setup.antt =====
-- The loop of `initTestnetFiles` that makes the directory of each node.
use mono_chain.Prelude.{ℕ, zero, suc, ◌*◌, false, Option, none, some, List, [], ◌∷◌, ◌++◌}
use mono_chain.Prelude.Int.{ℤ, pos, ◌-ℤ◌}
use mono_chain.Sdk.Outcome.{on_ok, Result, ok, err, Action, pure, lift, ◌>>=◌, ◌>>◌}
use mono_chain.Sdk.Amounts.{Coin, int, dec, one}
use mono_chain.Sdk.Address.{Address}
use mono_chain.Burn.Types.{default_bond_denom}
use mono_chain.Cmd.Text.{Text, codes}
use mono_chain.Cmd.Decimal.{itoa}
use mono_chain.Cmd.Paths.{join}
use mono_chain.Cmd.MultiNode.{Env, Bytes, NodeConfig, AppConfig, Balance}
use mono_chain.Cmd.MultiNode.Args.{text_at, InitArgs}
use mono_chain.Cmd.MultiNode.Files.{Ctx, on_state, write_file}

-- `fmt.Sprintf("%s%d", args.nodeDirPrefix, i)`
abbrev pub node_dir_name : InitArgs → ℕ → Text
node_dir_name args i = args.node_dir_prefix ++ itoa (pos i)

unfoldable pub node_dir : InitArgs → ℕ → Text
node_dir args i = join (args.output_dir ∷ node_dir_name args i ∷ [])

abbrev pub gentxs_dir : InitArgs → ℕ → Text
gentxs_dir args i =
    join (args.output_dir ∷ node_dir_name args i ∷ codes "config" ∷ codes "gentx" ∷ [])

-- The same directory, as the loops that copy and collect join it.
abbrev pub joined_gentxs_dir : InitArgs → ℕ → Text
joined_gentxs_dir args i = join (node_dir args i ∷ codes "config" ∷ codes "gentx" ∷ [])

-- `fmt.Sprintf("%s@%s:"+strconv.Itoa(26656-3*i), nodeIDs[i], args.startingIPAddress)`
abbrev pub memo_of : InitArgs → ℕ → (node_id : Text) → Text
memo_of args i node_id =
    node_id ++ (64 ∷ args.starting_ip_address) ++ (58 ∷ itoa (pos 26656 -ℤ pos (3 * i)))

-- What is set of the configuration of node `i` before its keys are made.
abbrev pub node_config : InitArgs → ℕ → NodeConfig → NodeConfig
node_config args i c = record c {
  root_dir = node_dir args i;
  moniker = node_dir_name args i;
  rpc_listen_address = codes "tcp://0.0.0.0:" ++ text_at (args.ports i);
}

abbrev pub add_peer : (persistent_peers memo : Text) → Text
add_peer [] memo = memo
add_peer (c ∷ cs) memo = (c ∷ cs) ++ (44 ∷ memo)

-- `gentxsDir/gentx-<node id>.json`
abbrev pub gentx_file : InitArgs → ℕ → (node_id : Text) → Text
gentx_file args i node_id =
    join (gentxs_dir args i ∷ (codes "gentx-" ++ node_id ++ codes ".json") ∷ [])

-- The slices and the text that the loop builds up.
pub record Nodes : Type 0 where
  pub node_ids : List Text
  pub val_pub_keys : List Bytes
  pub gen_accounts : List Address
  pub gen_balances : List Balance
  pub gen_files : List Text
  pub persistent_peers : Text
  pub gentxs_files : List Text

abbrev pub no_nodes : Nodes
no_nodes = record {
  node_ids = [];
  val_pub_keys = [];
  gen_accounts = [];
  gen_balances = [];
  gen_files = [];
  persistent_peers = [];
  gentxs_files = [];
}

module _ (env : Env) where
  -- The disk after a call, with the output directory removed where the call failed.
  abbrev pub removed_on : {A : Type 0} → Result A → Text → env.State → env.State
  removed_on (ok a) dir s = s
  removed_on (err e) dir s = (env.remove_all dir s).1

  -- `if err != nil { _ = os.RemoveAll(args.outputDir); return err }`
  abbrev pub or_remove : {A : Type 0} → InitArgs → Action env.State A → Action (Ctx env) A
  or_remove args m c =
      let (r, s) = m c.state in (r, record c { state = removed_on r args.output_dir s })

  abbrev pub tokens : (power : ℕ) → ℤ
  tokens power = pos (power * env.power_reduction)

  -- The application's configuration of the testnet, up to the addresses of a node. Of the two values
  -- that the code gives the gas prices, the second one stays.
  abbrev pub app_config : InitArgs → AppConfig
  app_config args = record env.default_app_config {
    min_gas_prices = codes "0.0001alyth";
    api_enable = false;
    enable_hostname_label = false;
    telemetry_enabled = false;
    prometheus_retention_time = 0;
  }

  abbrev pub node_app_config : InitArgs → ℕ → AppConfig
  node_app_config args i = record (app_config args) {
    grpc_address = args.starting_ip_address ++ (58 ∷ itoa (pos 9090 -ℤ pos (2 * i)));
    api_address = codes "tcp://localhost:" ++ itoa (pos 1317 -ℤ pos i);
  }

  -- `sdk.Coins` of the tokens and the tokens to stake, both in "alyth"
  abbrev pub genesis_coins : Result (List Coin)
  genesis_coins = on_ok (env.math.new_coin "alyth" (int (tokens 1000))) λ alyth.
      on_ok (env.math.new_coin default_bond_denom (int (tokens 500)))
        λ stake. ok (env.sort_coins (alyth ∷ stake ∷ []))

  abbrev pub stake_of : Option Coin → Result Coin
  stake_of (some coin) = ok coin
  stake_of none = env.math.new_coin default_bond_denom (int (tokens 100))

  -- The message that makes the node a validator, signed.
  unfoldable pub make_gentx :
      InitArgs
      → (chain_id : Text) → ℕ
      → env.Keyring
      → Address
      → (pub_key : Bytes) (memo : Text) → Action env.State Bytes
  make_gentx args chain_id i kb addr pub_key memo = do
    value ← lift (stake_of (args.validators_stakes_amount i))
    key ← lift (env.pack_key pub_key)
    builder ← lift (
        env.set_msgs (record {
          validator_address = env.val_address_text addr;
          pub_key = key;
          value = value;
          moniker = node_dir_name args i;
          rate = dec (pos one);
          max_rate = dec (pos one);
          max_change_rate = dec (pos one);
          min_self_delegation = pos 1;
        }))
    signed ← env.sign kb chain_id memo (node_dir_name args i) (env.set_memo memo builder)
    lift (env.encode_tx signed)

  -- The keyring of a node, with a new key; its address.
  unfoldable pub make_key : InitArgs → ℕ → Action (Ctx env) (env.Keyring × Address)
  make_key args i = do
    kb ← on_state (env.new_keyring args.keyring_backend (node_dir args i))
    algo ← lift (env.signing_algo args.algo kb)
    key ← or_remove args (env.generate_save_coin_key kb (node_dir_name args i) algo)
    cli_print ← lift (env.marshal_secret (key.1))
    on_state (
        write_file env (join (node_dir args i ∷ codes "key_seed.json" ∷ [])) (node_dir args i)
          cli_print)
    pure (kb, key.0)

  -- One round of the loop, for node `i`.
  unfoldable pub init_node : InitArgs → (chain_id : Text) → ℕ → Nodes → Action (Ctx env) Nodes
  unfolding make_key make_gentx node_dir
  init_node args chain_id i nodes = do
    λ c. (ok tt, record c { config = node_config args i c.config })
    or_remove args (env.mkdir_all (join (node_dir args i ∷ codes "config" ∷ [])))
    node ← λ c. or_remove args (env.initialize_node_validator_files c.config) c
    gen_file ← λ c. (ok (env.genesis_file c.config.root_dir), c)
    key ← make_key args i
    coins ← lift genesis_coins
    tx ← on_state (make_gentx args chain_id i key.0 key.1 node.1 (memo_of args i node.0))
    on_state (write_file env (gentx_file args i node.0) (gentxs_dir args i) tx)
    on_state (
        env.write_app_config (join (node_dir args i ∷ codes "config" ∷ codes "app.toml" ∷ []))
          (node_app_config args i))
    pure (record {
      node_ids = nodes.node_ids ++ (node.0 ∷ []);
      val_pub_keys = nodes.val_pub_keys ++ (node.1 ∷ []);
      gen_accounts = nodes.gen_accounts ++ (key.1 ∷ []);
      gen_balances =
          nodes.gen_balances ++ (record { address = env.account_text key.1; coins = coins } ∷ []);
      gen_files = nodes.gen_files ++ (gen_file ∷ []);
      persistent_peers = add_peer nodes.persistent_peers (memo_of args i node.0);
      gentxs_files = nodes.gentxs_files ++ (gentx_file args i node.0 ∷ []);
    })

  -- The loop; `left` rounds are left.
  unfoldable pub init_nodes :
      InitArgs → (chain_id : Text) (left i : ℕ) → Nodes → Action (Ctx env) Nodes
  unfolding init_node
  init_nodes args chain_id zero i nodes = pure nodes
  init_nodes args chain_id (suc left) i nodes = do
    more ← init_node args chain_id i nodes
    init_nodes args chain_id left (suc i) more

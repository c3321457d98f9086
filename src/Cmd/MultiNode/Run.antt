-- ===== src/Cmd/MultiNode/Run.antt =====
-- `initTestnetFiles` of testnet_multi_node.go as a whole, and RunE, which calls it.
use mono_chain.Prelude.{ℕ, zero, suc, Bool, true, false, List, [], ◌∷◌, ◌++◌}
use mono_chain.Prelude.Int.{ℤ, pos, negsuc}
use mono_chain.Sdk.Outcome.{Result, ok, err, panicked, Action, pure, lift, ◌>>=◌, ◌>>◌}
use mono_chain.Cmd.Text.{Text, codes}
use mono_chain.Cmd.MultiNode.{Env}
use mono_chain.Cmd.MultiNode.Args.{Flags, InitArgs, parse_args}
use mono_chain.Cmd.MultiNode.Files.{Ctx, on_state, copy_file, is_sub_dir, generate_random_string}
use mono_chain.Cmd.MultiNode.Setup.{no_nodes, joined_gentxs_dir, init_nodes}
use mono_chain.Cmd.MultiNode.Genesis.{init_gen_files, collect_gen_files}

-- `make([]string, n)` panics below zero.
abbrev pub slice_size : ℤ → Result ℕ
slice_size (pos n) = ok n
slice_size (negsuc n) = err panicked

module _ (env : Env) where
  -- `if err != nil || yes { continue }`, and the copy.
  abbrev pub copy_unless : Result Bool → (file dir : Text) → Action env.State (Unit {0})
  copy_unless (err e) file dir = pure tt
  copy_unless (ok true) file dir = pure tt
  copy_unless (ok false) file dir = copy_file env file dir >> pure tt

  -- The gentxs that are copied into the directory of one node.
  unfoldable pub copy_all : (dir : Text) → List Text → Action env.State (Unit {0})
  unfolding copy_file is_sub_dir
  copy_all dir [] = pure tt
  copy_all dir (file ∷ files) = do
    λ s. copy_unless (is_sub_dir env s file dir) file dir s
    copy_all dir files

  unfoldable pub copy_gentxs : InitArgs → List Text → (left i : ℕ) → Action env.State (Unit {0})
  unfolding copy_all
  copy_gentxs args files zero i = pure tt
  copy_gentxs args files (suc left) i = do
    copy_all (joined_gentxs_dir args i) files
    copy_gentxs args files left (suc i)

  -- `if args.chainID == ""`
  abbrev pub chain_id_or_random : Text → Action env.State Text
  chain_id_or_random [] = do random ← generate_random_string env 6; pure (codes "chain-" ++ random)
  chain_id_or_random (c ∷ cs) = pure (c ∷ cs)

  -- `initTestnetFiles`
  unfoldable pub init_testnet_files : InitArgs → Action (Ctx env) (Unit {0})
  unfolding init_nodes init_gen_files copy_gentxs collect_gen_files generate_random_string
  init_testnet_files args = do
    chain_id ← on_state (chain_id_or_random args.chain_id)
    n ← lift (slice_size args.num_validators)
    nodes ← init_nodes env args chain_id n 0 no_nodes
    on_state (init_gen_files env chain_id nodes.gen_accounts nodes.gen_balances nodes.gen_files n)
    on_state (copy_gentxs args nodes.gentxs_files n 0)
    collect_gen_files env args chain_id nodes.node_ids nodes.val_pub_keys nodes.persistent_peers n

  -- RunE, with the client context, which may be missing.
  unfoldable pub run_multi_node :
      (client_ctx : Result (Unit {0})) → Flags → Action (Ctx env) (Unit {0})
  unfolding parse_args init_testnet_files
  run_multi_node client_ctx f = do
    lift client_ctx
    args ← lift (parse_args env f)
    init_testnet_files args

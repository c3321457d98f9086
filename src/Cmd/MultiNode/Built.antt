-- ===== src/Cmd/MultiNode/Built.antt =====
-- What the loop of `initTestnetFiles` over the nodes builds up.
use mono_chain.Prelude.{
  ℕ, zero, suc, ◌+◌, ◌*◌, ◌≡◌, ◌≢◌, refl, sym, ap, ◌∙◌, List, [], ◌∷◌, ◌++◌, length, length-append,
  arith,
}
use mathlib.Core.List.{append-nil, append_assoc}
use mono_chain.Sdk.Outcome.{ok, Ensures, >>=-Ensures, Ensures-map, Ensures-ok}
use mono_chain.Cmd.Text.{Text, codes}
use mono_chain.Cmd.Decimal.{itoa}
use mono_chain.Cmd.Paths.{join}
use mono_chain.Prelude.Int.{pos, ◌-ℤ◌}
use mono_chain.Cmd.MultiNode.{Env}
use mono_chain.Cmd.MultiNode.Args.{InitArgs}
use mono_chain.Cmd.MultiNode.Files.{Ctx}
use mono_chain.Cmd.MultiNode.Setup.{Nodes, no_nodes, memo_of, add_peer, init_node, init_nodes}

-- `<node id>@<starting address>:<26656 - 3 i>`
abbrev pub peer : InitArgs → ℕ → (node_id : Text) → Text
peer args i id =
    id ++ (codes "@" ++ args.starting_ip_address) ++ (codes ":" ++ itoa (pos 26656 -ℤ pos (3 * i)))

-- A comma before the peer of each node from `i` on, whose ids are given; and the list of all.
abbrev pub more_peers : InitArgs → ℕ → (node_ids : List Text) → Text
more_peers args i [] = []
more_peers args i (id ∷ ids) = (codes "," ++ peer args i id) ++ more_peers args (suc i) ids

abbrev pub all_peers : InitArgs → (node_ids : List Text) → Text
all_peers args [] = []
all_peers args (id ∷ ids) = peer args 0 id ++ more_peers args 1 ids

-- `<output directory>/<prefix><i>`
abbrev pub own_dir : InitArgs → ℕ → Text
own_dir args i = join (args.output_dir ∷ (args.node_dir_prefix ++ itoa (pos i)) ∷ [])

-- `config/gentx/gentx-<node id>.json` in the directory of each node
abbrev pub gentxs_from : InitArgs → ℕ → (node_ids : List Text) → List Text
gentxs_from args i [] = []
gentxs_from args i (id ∷ ids) =
    join (
      join (
        args.output_dir
        ∷ (args.node_dir_prefix ++ itoa (pos i))
        ∷ codes "config"
        ∷ codes "gentx"
        ∷ [])
      ∷ (codes "gentx-" ++ id ++ codes ".json")
      ∷ [])
    ∷ gentxs_from args (suc i) ids

-- The peers as the loop adds them up.
abbrev peers_from : InitArgs → ℕ → (node_ids : List Text) → (persistent_peers : Text) → Text
peers_from args i [] peers = peers
peers_from args i (id ∷ ids) peers =
    peers_from args (suc i) ids (add_peer peers (memo_of args i id))

-- After the first peer, each one is added behind a comma.
peers_from-more :
    (args : InitArgs) (i : ℕ) (ids : List Text) (peers : Text)
    → peers ≢ []
    → peers_from args i ids peers ≡ peers ++ more_peers args i ids
peers_from-more args i ids [] h = absurd (h refl)
peers_from-more args i [] (c ∷ cs) h = sym (append-nil _)
peers_from-more args i (id ∷ ids) (c ∷ cs) h =
    peers_from-more args (suc i) ids ((c ∷ cs) ++ (44 ∷ memo_of args i id)) (λ e. cc e)
    ∙ append_assoc (c ∷ cs) (44 ∷ memo_of args i id) (more_peers args (suc i) ids)

not_empty : (xs : Text) (y : ℕ) (ys : Text) → xs ++ (y ∷ ys) ≢ []
not_empty [] y ys e = cc e
not_empty (x ∷ xs) y ys e = cc e

peers_from-all : (args : InitArgs) (ids : List Text) → peers_from args 0 ids [] ≡ all_peers args ids
peers_from-all args [] = refl
peers_from-all args (id ∷ ids) = peers_from-more args 1 ids (memo_of args 0 id) (not_empty _ 58 _)

single : {A : Type 0} (xs : List A) → length xs ≡ 1 → (x : A) × (xs ≡ x ∷ [])
single [] h = absurd (omega arith)
single (x ∷ []) h = (x, refl)
single (x ∷ y ∷ ys) h = absurd (omega arith)

-- One more element between a list and what follows it.
front :
    {A : Type 0} (before : List A) {one more : List A} {x : A}
    → more ≡ before ++ one
    → one ≡ x ∷ []
    → (rest : List A) → more ++ rest ≡ before ++ (x ∷ rest)
front before {x = x} e h rest = rw (e, h) (append_assoc before (x ∷ []) rest)

module _ (env : Env) where
  abbrev pub gen_files_from : InitArgs → (i left : ℕ) → List Text
  gen_files_from args i zero = []
  gen_files_from args i (suc left) =
      env.genesis_file (own_dir args i) ∷ gen_files_from args (suc i) left

  -- Rounds `i` to `i + left` added one node each to what was there, in their order.
  pub record Added (args : InitArgs) (left i : ℕ) (before nodes : Nodes) : Type 0 where
    pub ids : List Text
    pub ids_size : length ids ≡ left
    pub node_ids : nodes.node_ids ≡ before.node_ids ++ ids
    pub keys : length nodes.val_pub_keys ≡ length before.val_pub_keys + left
    pub accounts : length nodes.gen_accounts ≡ length before.gen_accounts + left
    pub balances : length nodes.gen_balances ≡ length before.gen_balances + left
    pub gen_files : nodes.gen_files ≡ before.gen_files ++ gen_files_from args i left
    pub persistent_peers : nodes.persistent_peers ≡ peers_from args i ids before.persistent_peers
    pub gentxs_files : nodes.gentxs_files ≡ before.gentxs_files ++ gentxs_from args i ids

  init_node-Added :
      (args : InitArgs) (chain_id : Text) (i : ℕ) (nodes : Nodes) (c : Ctx env)
      → Ensures (λ nodes' _. Added args 1 i nodes nodes') (init_node env args chain_id i nodes c)
  unfolding init_node
  init_node-Added args chain_id i nodes c =
      let P : Nodes → Ctx env → Type 0 = λ nodes' _. Added args 1 i nodes nodes' in
      >>=-Ensures P _ _ _ λ _ p1. >>=-Ensures P _ _ _ λ _ p2. >>=-Ensures P _ _ _ λ node p3.
        >>=-Ensures P _ _ _ λ gen_file p4. >>=-Ensures P _ _ _ λ key p5.
          >>=-Ensures P _ _ _ λ coins p6. >>=-Ensures P _ _ _ λ tx p7. >>=-Ensures P _ _ _ λ _ p8.
            >>=-Ensures P _ _ _ λ _ p9. record {
              ids = node.0 ∷ [];
              ids_size = refl;
              node_ids = refl;
              keys = length-append nodes.val_pub_keys (node.1 ∷ []);
              accounts = length-append nodes.gen_accounts (key.1 ∷ []);
              balances = length-append nodes.gen_balances _;
              gen_files = ap (λ f. nodes.gen_files ++ (f ∷ [])) (cc p4);
              persistent_peers = refl;
              gentxs_files = refl;
            }

  Added-trans :
      (args : InitArgs) (left i : ℕ) (n0 n1 n2 : Nodes)
      → Added args 1 i n0 n1
      → Added args left (suc i) n1 n2
      → Added args (suc left) i n0 n2
  Added-trans args left i n0 n1 n2 a b =
      let (id, one) = single a.ids a.ids_size in
      record {
        ids = id ∷ b.ids;
        ids_size = omega (arith, b.ids_size);
        node_ids = b.node_ids ∙ front n0.node_ids a.node_ids one b.ids;
        keys = omega (arith, a.keys, b.keys);
        accounts = omega (arith, a.accounts, b.accounts);
        balances = omega (arith, a.balances, b.balances);
        gen_files =
            b.gen_files ∙ front n0.gen_files a.gen_files refl (gen_files_from args (suc i) left);
        persistent_peers =
            b.persistent_peers
            ∙ ap (peers_from args (suc i) b.ids)
                (a.persistent_peers ∙ ap (λ ids. peers_from args i ids n0.persistent_peers) one);
        gentxs_files =
            b.gentxs_files
            ∙ front n0.gentxs_files a.gentxs_files (ap (gentxs_from args i) one)
                (gentxs_from args (suc i) b.ids);
      }

  init_nodes-Added :
      (args : InitArgs) (chain_id : Text) (left i : ℕ) (nodes : Nodes) (c : Ctx env)
      → Ensures
          (λ nodes' _. Added args left i nodes nodes')
          (init_nodes env args chain_id left i nodes c)
  unfolding init_nodes
  init_nodes-Added args chain_id zero i nodes c = record {
    ids = [];
    ids_size = refl;
    node_ids = sym (append-nil _);
    keys = omega arith;
    accounts = omega arith;
    balances = omega arith;
    gen_files = sym (append-nil _);
    persistent_peers = refl;
    gentxs_files = sym (append-nil _);
  }
  init_nodes-Added args chain_id (suc left) i nodes c =
      let P : Nodes → Ctx env → Type 0 = λ nodes' _. Added args (suc left) i nodes nodes' in
      >>=-Ensures P _ _ _ λ more done.
        let one : Added args 1 i nodes more =
          Ensures-ok (λ nodes' _. Added args 1 i nodes nodes') _
            (init_node-Added args chain_id i nodes c) done in
        Ensures-map P _ (λ nodes' _ rest. Added-trans args left i nodes more nodes' one rest)
          (init_nodes-Added args chain_id left (suc i) more _)

  -- After the loop over `n` nodes that returns no error, the ids, keys, accounts, balances, genesis
  -- files and gentxs are lists of `n` each; the genesis file and the gentx under a number are in the
  -- directory of that node, and the persistent peers are all nodes in their order, each with its id, the
  -- starting address, which is the same for all, and the port 26656 - 3 i.
  pub init_nodes_lem :
      (args : InitArgs) (chain_id : Text) (n : ℕ) (nodes : Nodes) (c : Ctx env)
      → (init_nodes env args chain_id n 0 no_nodes c).0 ≡ ok nodes
      → (length nodes.node_ids ≡ n)
        × (length nodes.val_pub_keys ≡ n)
        × (length nodes.gen_accounts ≡ n)
        × (length nodes.gen_balances ≡ n)
        × (nodes.gen_files ≡ gen_files_from args 0 n)
        × (nodes.gentxs_files ≡ gentxs_from args 0 nodes.node_ids)
        × (nodes.persistent_peers ≡ all_peers args nodes.node_ids)
  init_nodes_lem args chain_id n nodes c done =
      let a : Added args n 0 no_nodes nodes =
        Ensures-ok (λ nodes' _. Added args n 0 no_nodes nodes') _
          (init_nodes-Added args chain_id n 0 no_nodes c) done in
      let same : nodes.node_ids ≡ a.ids = a.node_ids in
      (
        ap length same ∙ a.ids_size,
        omega (arith, a.keys),
        omega (arith, a.accounts),
        omega (arith, a.balances),
        a.gen_files,
        a.gentxs_files ∙ ap (gentxs_from args 0) (sym same),
        a.persistent_peers
            ∙ ap (λ ids. peers_from args 0 ids []) (sym same)
            ∙ peers_from-all args nodes.node_ids,
      )

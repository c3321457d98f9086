-- ===== src/Cmd/MultiNode/Canonical.antt =====
-- The nodes of a testnet get one genesis file.
use mono_chain.Prelude.{
  ℕ, zero, suc, ◌+◌, ◌≤◌, ◌<◌, ◌≡◌, ◌≢◌, refl, sym, ap, subst, ◌∙◌, ◌⊎◌, inl, inr, Option, none,
  some, List, [], ◌∷◌, bytes_eq, bytes_eq→eq, bytes_eq_self, Bool-cases, arith,
}
use mono_chain.Prelude.Int.{ℤ, pos}
use mono_chain.Sdk.Outcome.{Result, ok, Ensures, >>=-Ensures, Ensures-map, Ensures-of, Ensures-ok}
use mono_chain.Cmd.Text.{Text, codes}
use mono_chain.Cmd.Paths.{join}
use mono_chain.Cmd.MultiNode.{Env, Bytes, NodeConfig, GenesisFile}
use mono_chain.Cmd.MultiNode.Args.{InitArgs}
use mono_chain.Cmd.MultiNode.Files.{Ctx}
use mono_chain.Cmd.MultiNode.Setup.{node_dir, joined_gentxs_dir}
use mono_chain.Cmd.MultiNode.Genesis.{
  first_state, network_config, collect_config, collect_node, collect_nodes, collect_gen_files,
}
use mono_chain.Cmd.MultiNode.Run.{slice_size, init_testnet_files, chain_id_or_random}

pub same_text : (t u : Text) → (t ≡ u) ⊎ (t ≢ u)
same_text t u = elim (Bool-cases (bytes_eq t u)) [
  | inl same ↦ inl (bytes_eq→eq t u same)
  | inr other ↦ inr (λ e. cc (bytes_eq_self t, ap (bytes_eq t) e, other))
]

pub at_or_behind : (i j : ℕ) → i ≤ j → (i ≡ j) ⊎ (suc i ≤ j)
at_or_behind i j h = ground arith

module _ (env : Env) where
  -- the genesis file of node `i`
  abbrev pub file_of : InitArgs → ℕ → Text
  file_of args i = env.genesis_file (node_dir args i)

  abbrev pub document : (chain_id : Text) (gen_time : ℕ) → Bytes → GenesisFile
  document chain_id gen_time app_state = record {
    chain_id = chain_id;
    app_state = app_state;
    genesis_time = some gen_time;
  }

  abbrev Has : Ctx env → GenesisFile → Text → Type 0
  Has c doc file = env.genesis_at file c.state ≡ some doc

  -- One round writes the document of node `i`, and changes no other to anything else.
  abbrev Collected : InitArgs → Text → ℕ → Option Bytes → ℕ → Ctx env → Bytes → Ctx env → Type 0
  Collected args chain_id time app_state i c b c' =
      ((x : Bytes) → app_state ≡ some x → b ≡ x)
      × Has c' (document chain_id time b) (file_of args i)
      × ((home : Text)
          → Has c (document chain_id time b) (env.genesis_file home)
          → Has c' (document chain_id time b) (env.genesis_file home))

  first_state-some : (o : Option Bytes) (b x : Bytes) → o ≡ some x → first_state o b ≡ x
  first_state-some none b x e = absurd (cc e)
  first_state-some (some y) b x e = cc e

  -- The configuration and then the document are written, after x/genutil ran for `home`.
  exported :
      (doc : GenesisFile) (root_dir home : Text) (before s : env.State) (cfg : NodeConfig)
      → root_dir ≡ home
      → ((file : Text)
          → file ≢ env.genesis_file home
          → env.genesis_at file s ≡ env.genesis_at file before)
      → let written =
          (env.write_node_config
            (join (root_dir ∷ codes "config" ∷ codes "config.toml" ∷ []))
            cfg
            s).1 in
        let out = env.export_genesis_file_with_time (env.genesis_file root_dir) doc written in
        out.0 ≡ ok tt
        → (env.genesis_at (env.genesis_file home) out.1 ≡ some doc)
          × ((other : Text)
              → env.genesis_at (env.genesis_file other) before ≡ some doc
              → env.genesis_at (env.genesis_file other) out.1 ≡ some doc)
  exported doc root_dir home before s cfg root kept done =
      let (here, others) = env.export_genesis_file_lem _ doc _ done in
      let after : env.State =
        (env.export_genesis_file_with_time (env.genesis_file root_dir) doc
          (env.write_node_config (join (root_dir ∷ codes "config" ∷ codes "config.toml" ∷ [])) cfg
            s).1).1 in
      let now_here : env.genesis_at (env.genesis_file home) _ ≡ some doc =
        ap (λ r. env.genesis_at (env.genesis_file r) after) (sym root) ∙ here in
      (
        now_here,
        λ other had. elim (same_text (env.genesis_file other) (env.genesis_file home)) [
          | inl same ↦ ap (λ file. env.genesis_at file after) same ∙ now_here
          | inr ne ↦
              others (env.genesis_file other) (λ e. ne (e ∙ ap env.genesis_file root))
              ∙ env.write_node_config_lem root_dir other cfg s
              ∙ kept (env.genesis_file other) ne
              ∙ had
        ],
      )

  collect_node-Collected :
      (args : InitArgs) (chain_id : Text) (ids : List Text) (keys : List Bytes) (peers : Text)
      (time : ℕ) (app_state : Option Bytes) (i : ℕ) (c : Ctx env)
      → Ensures
          (Collected args chain_id time app_state i c)
          (collect_node env args chain_id ids keys peers time app_state i c)
  unfolding collect_node network_config
  collect_node-Collected args chain_id ids keys peers time app_state i c =
      let P : Bytes → Ctx env → Type 0 = Collected args chain_id time app_state i c in
      >>=-Ensures P _ _ _ λ _ p1. >>=-Ensures P _ _ _ λ id p2. >>=-Ensures P _ _ _ λ key p3.
        >>=-Ensures P _ _ _ λ g p4. >>=-Ensures P _ _ _ λ b p5. >>=-Ensures P _ _ _ λ _ p6.
          >>=-Ensures P _ _ _ λ _ p7. >>=-Ensures P _ _ _ λ _ p8.
            let gen =
              env.gen_app_state_lem chain_id (joined_gentxs_dir args i) id key g c.state
                (collect_config args i c.config) in
            let (here, kept) =
              exported (document chain_id time (first_state app_state b)) _ (node_dir args i)
                c.state _ _ gen.0 gen.1 p8 in
            (first_state-some app_state b, here, kept)

  -- The documents of the nodes from `i` to the last one.
  abbrev Written : InitArgs → Text → ℕ → Bytes → (left i : ℕ) → Ctx env → Ctx env → Type 0
  Written args chain_id time b left i c c' =
      ((j : ℕ) → i ≤ j → j < i + left → Has c' (document chain_id time b) (file_of args j))
      × ((home : Text)
          → Has c (document chain_id time b) (env.genesis_file home)
          → Has c' (document chain_id time b) (env.genesis_file home))

  -- The first document, and then the others.
  Written-on :
      (args : InitArgs) (chain_id : Text) (time : ℕ) (b b' : Bytes) (left i : ℕ) (c c1 : Ctx env)
      → b' ≡ b
      → Has c1 (document chain_id time b') (file_of args i)
      → ((home : Text)
          → Has c (document chain_id time b') (env.genesis_file home)
          → Has c1 (document chain_id time b') (env.genesis_file home))
      → (p : Result (Unit {0}) × Ctx env)
      → Ensures (λ _. Written args chain_id time b' left (suc i) c1) p
      → Ensures (λ _. Written args chain_id time b (suc left) i c) p
  Written-on args chain_id time b b' left i c c1 e here kept p w =
      subst (λ x. Ensures (λ _. Written args chain_id time x (suc left) i c) p) e
        (Ensures-map (λ _. Written args chain_id time b' (suc left) i c) p
          (λ _ c' (each, keeps). (
            λ j h lt. elim (at_or_behind i j h) [
              | inl same ↦
                  subst (λ x. Has c' (document chain_id time b') (file_of args x)) same
                    (keeps (node_dir args i) here)
              | inr later ↦ each j later (omega arith)
            ],
            λ home had. keeps home (kept home had),
          ))
          w)

  collect_nodes-Written :
      (args : InitArgs) (chain_id : Text) (ids : List Text) (keys : List Bytes) (peers : Text)
      (time : ℕ) (b : Bytes) (left i : ℕ) (c : Ctx env)
      → Ensures
          (λ _. Written args chain_id time b left i c)
          (collect_nodes env args chain_id ids keys peers time (some b) left i c)
  unfolding collect_nodes
  collect_nodes-Written args chain_id ids keys peers time b zero i c =
      (λ j h lt. absurd (omega arith), λ home h. h)
  collect_nodes-Written args chain_id ids keys peers time b (suc left) i c =
      let P : Unit {0} → Ctx env → Type 0 = λ _. Written args chain_id time b (suc left) i c in
      >>=-Ensures P _ _ _ λ b' done.
        let c1 : Ctx env = (collect_node env args chain_id ids keys peers time (some b) i c).1 in
        let (same, here, kept) =
          Ensures-ok (Collected args chain_id time (some b) i c) _
            (collect_node-Collected args chain_id ids keys peers time (some b) i c) done in
        let e : b' ≡ b = same b refl in
        Written-on args chain_id time b b' left i c c1 e here kept
          (collect_nodes env args chain_id ids keys peers time (some b') left (suc i) c1)
          (collect_nodes-Written args chain_id ids keys peers time b' left (suc i) c1)

  -- All nodes have one document.
  abbrev Shared : InitArgs → Text → (time n : ℕ) → Ctx env → Type 0
  Shared args chain_id time n c' =
      (b : Bytes) × ((i : ℕ) → i < n → Has c' (document chain_id time b) (file_of args i))

  collect_gen_files-Shared :
      (args : InitArgs) (chain_id : Text) (ids : List Text) (keys : List Bytes) (peers : Text)
      (n : ℕ) (c : Ctx env)
      → Ensures
          (λ _. Shared args chain_id (env.now c.state) n)
          (collect_gen_files env args chain_id ids keys peers n c)
  unfolding collect_gen_files collect_nodes
  collect_gen_files-Shared args chain_id ids keys peers zero c = ([], λ i h. absurd (omega arith))
  collect_gen_files-Shared args chain_id ids keys peers (suc n) c =
      let time : ℕ = env.now c.state in
      let P : Unit {0} → Ctx env → Type 0 = λ _. Shared args chain_id time (suc n) in
      >>=-Ensures P _ _ _ λ b done.
        let c1 : Ctx env = (collect_node env args chain_id ids keys peers time none 0 c).1 in
        let (_, here, _) =
          Ensures-ok (Collected args chain_id time none 0 c) _
            (collect_node-Collected args chain_id ids keys peers time none 0 c) done in
        Ensures-map P (collect_nodes env args chain_id ids keys peers time (some b) n 1 c1)
          (λ _ c' (each, keeps). (
            b,
            λ i h. elim (at_or_behind 0 i (omega arith)) [
              | inl same ↦
                  subst (λ x. Has c' (document chain_id time b) (file_of args x)) same
                    (keeps (node_dir args 0) here)
              | inr later ↦ each i later (omega arith)
            ],
          ))
          (collect_nodes-Written args chain_id ids keys peers time b n 1 c1)

  -- The chain id of the arguments, where they have one.
  abbrev pub Chosen : (given chain_id : Text) → Type 0
  Chosen [] chain_id = Unit {0}
  Chosen (c ∷ cs) chain_id = chain_id ≡ c ∷ cs

  chain_id_or_random-Chosen :
      (t : Text) (s : env.State)
      → Ensures (λ chain_id _. Chosen t chain_id) (chain_id_or_random env t s)
  chain_id_or_random-Chosen [] s =
      Ensures-of (λ chain_id _. Chosen [] chain_id) (chain_id_or_random env [] s) λ _ _. tt
  chain_id_or_random-Chosen (c ∷ cs) s = refl

  same_size : {z : ℤ} (n m : ℕ) → z ≡ pos n → slice_size z ≡ ok m → n ≡ m
  same_size n m e h = cc (rw e at h)

  -- After a run for `n` validators that returns no error, there is one genesis file, with the chain
  -- id of the arguments where they have one and with a genesis time, that every node of the testnet
  -- has, whatever x/genutil made for each of them.
  pub init_testnet_files_lem :
      (args : InitArgs) (n : ℕ) (c : Ctx env)
      → args.num_validators ≡ pos n
      → (init_testnet_files env args c).0 ≡ ok tt
      → (chain_id : Text) × Chosen args.chain_id chain_id
        × ((b : Bytes) × (time : ℕ) × ((i : ℕ)
              → i < n
              → env.genesis_at (file_of args i) (init_testnet_files env args c).1.state
                ≡ some (document chain_id time b)))
  unfolding init_testnet_files
  init_testnet_files_lem args n c size = Ensures-ok P _ (
      >>=-Ensures P _ _ _ λ chain_id p1. >>=-Ensures P _ _ _ λ n' p2.
        >>=-Ensures P _ _ _ λ nodes p3. >>=-Ensures P _ _ _ λ _ p4. >>=-Ensures P _ _ _ λ _ p5.
          Ensures-map P _
            (λ _ c' (b, each). (
              chain_id,
              Ensures-ok (λ chain_id _. Chosen args.chain_id chain_id) _
                  (chain_id_or_random-Chosen args.chain_id c.state) p1,
              (b, _, λ i h. each i (subst (λ m. i < m) (same_size n n' size p2) h)),
            ))
            (collect_gen_files-Shared args chain_id nodes.node_ids nodes.val_pub_keys
              nodes.persistent_peers n' _))
    where
      P : Unit {0} → Ctx env → Type 0
      P _ c' =
          (chain_id : Text) × Chosen args.chain_id chain_id
          × ((b : Bytes) × (time : ℕ) × ((i : ℕ)
                → i < n
                → env.genesis_at (file_of args i) c'.state ≡ some (document chain_id time b)))

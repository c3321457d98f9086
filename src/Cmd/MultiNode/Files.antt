-- ===== src/Cmd/MultiNode/Files.antt =====
-- writeFile, copyFile, isSubDir and generateRandomString of testnet_multi_node.go.
use mono_chain.Prelude.{ℕ, zero, suc, Bool, true, false, not, ◌&&◌, List, [], ◌∷◌, length}
use mono_chain.Sdk.Outcome.{Result, ok, err, on_ok, panicked, Action, pure, lift, ◌>>=◌, ◌>>◌}
use mono_chain.Cmd.Text.{Text, codes}
use mono_chain.Cmd.Paths.{is_abs, clean, join, base, rel, starts_dot_dot}
use mono_chain.Cmd.MultiNode.{Env, Bytes, NodeConfig}

-- The disk, and the configuration that the command changes.
module _ (env : Env) where
  pub record Ctx : Type 0 where
    pub state : env.State
    pub config : NodeConfig

module _ {env : Env} where
  abbrev pub on_state : {A : Type 0} → Action env.State A → Action (Ctx env) A
  on_state m c = let (r, s) = m c.state in (r, record c { state = s })

-- The entry of a list under a number; a Go slice panics behind its end.
abbrev pub index : {A : Type 0} → List A → ℕ → Result A
index [] i = err panicked
index (x ∷ xs) zero = ok x
index (x ∷ xs) (suc i) = index xs i

abbrev pub charset : Text
charset = codes "abcdefghijklmnopqrstuvwxyz0123456789"

module _ (env : Env) where
  -- `writeFile`; an error of `MkdirAll` is passed on as the cause of the one that it returns.
  abbrev pub write_file : (file dir : Text) → Bytes → Action env.State (Unit {0})
  write_file file dir contents = env.mkdir_all dir >> env.write_file file contents

  -- `copyFile`: the source is read after the destination is made empty.
  unfoldable pub copy_file : (src dst_dir : Text) → Action env.State ℕ
  unfolding join base
  copy_file src dst_dir = do
    λ s. (env.open_file src s, s)
    env.create (join (dst_dir ∷ base src ∷ []))
    contents ← λ s. (env.read src s, s)
    env.append (join (dst_dir ∷ base src ∷ [])) contents
    env.sync (join (dst_dir ∷ base src ∷ []))
    pure (length contents)

  abbrev pub abs_from : Bool → Result Text → Text → Result Text
  abs_from true wd path = ok (clean path)
  abs_from false (err e) path = err e
  abs_from false (ok wd) path = ok (join (wd ∷ path ∷ []))

  -- `filepath.Abs`
  abbrev pub abs : env.State → Text → Result Text
  abs s path = abs_from (is_abs path) (env.getwd s) path

  abbrev pub is_inside : (relative_path : Text) → Bool
  is_inside relative_path = not (starts_dot_dot relative_path) && not (is_abs relative_path)

  -- `isSubDir`; `filepath.Rel` returns no error on absolute paths.
  unfoldable pub is_sub_dir : env.State → (src dst_dir : Text) → Result Bool
  unfolding clean join rel
  is_sub_dir s src dst_dir =
      on_ok (abs s src)
        λ abs_src. on_ok (abs s dst_dir) λ abs_dst_dir. ok (is_inside (rel abs_dst_dir abs_src))

  -- `generateRandomString`
  unfoldable pub generate_random_string : (size : ℕ) → Action env.State Text
  generate_random_string zero = pure []
  generate_random_string (suc size) = do
    i ← λ s. let (n, s') = env.intn (length charset) s in (ok n, s')
    c ← lift (index charset i)
    rest ← generate_random_string size
    pure (c ∷ rest)

-- ===== src/Cmd/MultiNode/Copies.antt =====
-- What the loop that copies the gentxs leaves in the directories of the nodes.
use mono_chain.Prelude.{
  ℕ, zero, suc, ◌+◌, ◌≤◌, ◌<◌, ◌≡◌, ◌≢◌, refl, sym, ap, ◌∙◌, subst, inl, inr, Bool, true, false,
  List, [], ◌∷◌, All, arith,
}
use mono_chain.Sdk.Outcome.{Result, ok, err, Ensures, >>=-Ensures, Ensures-map, Ensures-ok}
use mathlib.Core.List.{Memᴰ}
use mono_chain.Cmd.Text.{Text}
use mono_chain.Cmd.Paths.{join, base}
use mono_chain.Cmd.MultiNode.{Env, Bytes}
use mono_chain.Cmd.MultiNode.Args.{InitArgs}
use mono_chain.Cmd.MultiNode.Setup.{joined_gentxs_dir}
use mono_chain.Cmd.MultiNode.Files.{copy_file, is_sub_dir}
use mono_chain.Cmd.MultiNode.Canonical.{same_text, at_or_behind}
use mono_chain.Cmd.MultiNode.Run.{copy_unless, copy_all, copy_gentxs}

-- where the copy of a file stands
abbrev pub copy_of : (dir file : Text) → Text
copy_of dir file = join (dir ∷ base file ∷ [])

module _ (env : Env) where
  -- The copy has the contents of the source, and no other file is changed.
  abbrev pub IsCopied : (file dir : Text) → env.State → env.State → Type 0
  IsCopied file dir s s' =
      ((b : Bytes) × (env.read file s ≡ ok b) × (env.read (copy_of dir file) s' ≡ ok b))
      × ((other : Text) → other ≢ copy_of dir file → env.read other s' ≡ env.read other s)
      × (env.getwd s' ≡ env.getwd s)

  copy_file-IsCopied :
      (file dir : Text) (s : env.State)
      → copy_of dir file ≢ file
      → Ensures (λ _. IsCopied file dir s) (copy_file env file dir s)
  unfolding copy_file
  copy_file-IsCopied file dir s ne =
      let P : ℕ → env.State → Type 0 = λ _. IsCopied file dir s in
      >>=-Ensures P _ _ _ λ _ p1. >>=-Ensures P _ _ _ λ _ p2. >>=-Ensures P _ _ _ λ b p3.
        >>=-Ensures P _ _ _ λ _ p4. >>=-Ensures P _ _ _ λ _ p5.
          let (empty, others1, wd1) = env.create_lem (copy_of dir file) s p2 in
          let (added, others2, wd2) = env.append_lem (copy_of dir file) b _ p4 in
          let (others3, wd3) = env.sync_lem (copy_of dir file) _ in
          (
            (
              b,
              sym (others1 file (λ e. ne (sym e))) ∙ p3,
              others3 (copy_of dir file) ∙ added [] empty,
            ),
            (λ other h. others3 other ∙ others2 other h ∙ others1 other h),
            wd3 ∙ wd2 ∙ wd1,
          )

  module _ (args : InitArgs) (files : List Text) (n : ℕ) (start : env.State) where
    -- A copy is not a gentx that was there, and two copies at one place are copies of one gentx.
    pub record AreApart : Type 0 where
      pub no_source :
          (i : ℕ) (f g : Text)
          → i < n
          → Memᴰ f files
          → Memᴰ g files
          → is_sub_dir env start f (joined_gentxs_dir args i) ≡ ok false
          → copy_of (joined_gentxs_dir args i) f ≢ g
      pub one_source :
          (i j : ℕ) (f g : Text)
          → i < n
          → j < n
          → Memᴰ f files
          → Memᴰ g files
          → copy_of (joined_gentxs_dir args i) f ≡ copy_of (joined_gentxs_dir args j) g
          → f ≡ g

    -- The gentxs that were there, and the working directory, are as they were.
    abbrev Kept : env.State → Type 0
    Kept s =
        ((g : Text) → Memᴰ g files → env.read g s ≡ env.read g start)
        × (env.getwd s ≡ env.getwd start)

    abbrev pub HasCopy : ℕ → Text → env.State → Type 0
    HasCopy i f s = env.read (copy_of (joined_gentxs_dir args i) f) s ≡ env.read f start

    abbrev Keeps : env.State → env.State → Type 0
    Keeps s s' =
        Kept s' × ((j : ℕ) (g : Text) → j < n → Memᴰ g files → HasCopy j g s → HasCopy j g s')

    abbrev After : ℕ → Text → env.State → env.State → Type 0
    After i f s s' =
        Keeps s s' × (is_sub_dir env start f (joined_gentxs_dir args i) ≡ ok false → HasCopy i f s')

    abbrev Copied : ℕ → env.State → List Text → Type 0
    Copied i s =
        All (λ f. is_sub_dir env start f (joined_gentxs_dir args i) ≡ ok false → HasCopy i f s)

    module _ (apart : AreApart) where
      After-copied :
          (i : ℕ) (f : Text) (s s' : env.State)
          → i < n
          → Memᴰ f files
          → Kept s
          → is_sub_dir env start f (joined_gentxs_dir args i) ≡ ok false
          → IsCopied f (joined_gentxs_dir args i) s s'
          → After i f s s'
      After-copied i f s s' lt mem (kept, wd) outside ((b, had, has), others, wd') =
          let dir : Text = joined_gentxs_dir args i in
          let copy : HasCopy i f s' = has ∙ sym had ∙ kept f mem in
          (
            (
              (
                λ g m. others g (λ e. apart.no_source i f g lt mem m outside (sym e)) ∙ kept g m,
                wd' ∙ wd,
              ),
              λ j g jn m h.
                  elim (same_text (copy_of (joined_gentxs_dir args j) g) (copy_of dir f)) [
                    | inl same ↦
                        let e : f ≡ g = sym (apart.one_source j i g f jn lt m mem same) in
                        ap (λ x. env.read x s') same ∙ copy ∙ ap (λ x. env.read x start) e
                    | inr ne ↦ others _ ne ∙ h
                  ],
            ),
            λ _. copy,
          )

      is_sub_dir_kept :
          (s : env.State) (f dir : Text)
          → env.getwd s ≡ env.getwd start
          → is_sub_dir env s f dir ≡ is_sub_dir env start f dir
      unfolding is_sub_dir
      is_sub_dir_kept s f dir wd = rw wd

      copy_unless-After :
          (r : Result Bool) (i : ℕ) (f : Text) (s : env.State)
          → i < n
          → Memᴰ f files
          → Kept s
          → is_sub_dir env start f (joined_gentxs_dir args i) ≡ r
          → Ensures (λ _. After i f s) (copy_unless env r f (joined_gentxs_dir args i) s)
      copy_unless-After (err e) i f s lt mem kept is = ((kept, λ j g jn m h. h), λ h. cc)
      copy_unless-After (ok true) i f s lt mem kept is = ((kept, λ j g jn m h. h), λ h. cc)
      copy_unless-After (ok false) i f s lt mem kept is =
          >>=-Ensures (λ _. After i f s) _ _ _
            λ n done. After-copied i f s _ lt mem kept is (
              Ensures-ok (λ _. IsCopied f (joined_gentxs_dir args i) s) _
                (copy_file-IsCopied f (joined_gentxs_dir args i) s
                  (apart.no_source i f f lt mem mem is))
                done)

      copy_all-Copied :
          (i : ℕ) (fs : List Text) (s : env.State)
          → i < n
          → All (λ f. Memᴰ f files) fs
          → Kept s
          → Ensures
              (λ _ s'. Keeps s s' × Copied i s' fs)
              (copy_all env (joined_gentxs_dir args i) fs s)
      unfolding copy_all
      copy_all-Copied i [] s lt mems kept = ((kept, λ j g jn m h. h), tt)
      copy_all-Copied i (f ∷ fs) s lt (mem, mems) kept =
          let P : Unit {0} → env.State → Type 0 = λ _ s'. Keeps s s' × Copied i s' (f ∷ fs) in
          let s1 : env.State =
            (copy_unless env (is_sub_dir env s f (joined_gentxs_dir args i)) f
              (joined_gentxs_dir args i) s).1 in
          >>=-Ensures P _ _ _ λ _ done.
            let ((kept1, keeps1), here) =
              Ensures-ok (λ _. After i f s) _
                (copy_unless-After _ i f s lt mem kept
                  (sym (is_sub_dir_kept s f (joined_gentxs_dir args i) kept.1)))
                done in
            Ensures-map P (copy_all env (joined_gentxs_dir args i) fs s1)
              (λ _ s' ((kept2, keeps2), rest). (
                (kept2, λ j g jn m h. keeps2 j g jn m (keeps1 j g jn m h)),
                ((λ outside. keeps2 i f lt mem (here outside)), rest),
              ))
              (copy_all-Copied i fs s1 lt mems kept1)

      Copied-Keeps :
          (j : ℕ) (s s' : env.State) (fs : List Text)
          → j < n
          → All (λ f. Memᴰ f files) fs
          → Keeps s s'
          → Copied j s fs
          → Copied j s' fs
      Copied-Keeps j s s' [] jn mems keeps c = tt
      Copied-Keeps j s s' (f ∷ fs) jn (mem, mems) keeps (c, cs) =
          ((λ outside. keeps.1 j f jn mem (c outside)), Copied-Keeps j s s' fs jn mems keeps cs)

      copy_gentxs-Copied :
          (left i : ℕ) (s : env.State)
          → i + left ≤ n
          → All (λ f. Memᴰ f files) files
          → Kept s
          → Ensures
              (λ _ s'. Keeps s s' × ((j : ℕ) → i ≤ j → j < i + left → Copied j s' files))
              (copy_gentxs env args files left i s)
      unfolding copy_gentxs
      copy_gentxs-Copied zero i s le mems kept =
          ((kept, λ j g jn m h. h), λ j h lt. absurd (omega arith))
      copy_gentxs-Copied (suc left) i s le mems kept =
          let P : Unit {0} → env.State → Type 0 =
            λ _ s'. Keeps s s' × ((j : ℕ) → i ≤ j → j < i + suc left → Copied j s' files) in
          let s1 : env.State = (copy_all env (joined_gentxs_dir args i) files s).1 in
          >>=-Ensures P _ _ _ λ _ done.
            let (keeps1, here) =
              Ensures-ok (λ _ s'. Keeps s s' × Copied i s' files) _
                (copy_all-Copied i files s (omega arith) mems kept) done in
            Ensures-map P (copy_gentxs env args files left (suc i) s1)
              (λ _ s' (keeps2, rest). (
                (keeps2.0, λ j g jn m h. keeps2.1 j g jn m (keeps1.1 j g jn m h)),
                λ j h lt. elim (at_or_behind i j h) [
                  | inl same ↦
                      subst (λ x. Copied x s' files) same
                        (Copied-Keeps i s1 s' files (omega arith) mems keeps2 here)
                  | inr later ↦ rest j later (omega arith)
                ],
              ))
              (copy_gentxs-Copied left (suc i) s1 (omega arith) mems keeps1.0)

All-Mem : (xs : List Text) → All (λ x. Memᴰ x xs) xs
All-Mem [] = tt
All-Mem (x ∷ xs) = (Memᴰ.head refl, later xs (All-Mem xs))
  where
    later : (ys : List Text) → All (λ y. Memᴰ y xs) ys → All (λ y. Memᴰ y (x ∷ xs)) ys
    later [] a = tt
    later (y ∷ ys) (m, a) = (Memᴰ.tail m, later ys a)

-- After the gentxs are copied without an error, each node has the contents of each of them, but for
-- those that isSubDir finds in its directory or on which it fails, provided that no copy is written
-- over a gentx, and that two copies at one place are copies of one gentx.
pub copy_gentxs_lem :
    (env : Env) (args : InitArgs) (files : List Text) (n : ℕ) (s : env.State)
    → AreApart env args files n s
    → (copy_gentxs env args files n 0 s).0 ≡ ok tt
    → (i : ℕ) → i < n
    → All
        (λ f.
          is_sub_dir env s f (joined_gentxs_dir args i) ≡ ok false
          → HasCopy env args files n s i f (copy_gentxs env args files n 0 s).1)
        files
copy_gentxs_lem env args files n s apart done i h =
    (Ensures-ok
        (λ _ s'.
          Keeps env args files n s s s'
          × ((j : ℕ) → 0 ≤ j → j < 0 + n → Copied env args files n s j s' files))
        _
        (copy_gentxs-Copied env args files n s apart n 0 s (omega arith) (All-Mem files)
          (λ g m. refl, refl))
        done).1
      i (omega arith) (omega arith)

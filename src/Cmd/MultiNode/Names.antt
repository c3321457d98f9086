-- ===== src/Cmd/MultiNode/Names.antt =====
-- The chain id that is made up where none is given.
use mono_chain.Prelude.{
  ℕ, zero, suc, ◌<◌, ◌≡◌, refl, Bool, true, false, ◌||◌, [], ◌∷◌, ◌++◌, length, All, arith,
}
use mono_chain.Sdk.Outcome.{ok, ◌>>=◌}
use mono_chain.Cmd.Text.{Text, codes, is_lower, is_digit}
use mono_chain.Cmd.ChainId.{
  is_valid_chain_id, evmos_chain_id, prefix, after_prefix, group, separator,
}
use mono_chain.Cmd.MultiNode.{Env}
use mono_chain.Cmd.MultiNode.Files.{charset, index, generate_random_string}
use mono_chain.Cmd.MultiNode.Run.{chain_id_or_random}

abbrev pub is_letter_or_digit : ℕ → Bool
is_letter_or_digit c = is_lower c || is_digit c

abbrev pub OfLettersAndDigits : Text → Type 0
OfLettersAndDigits = All (λ c. is_letter_or_digit c ≡ true)

index_in :
    {P : ℕ → Type 0} (t : Text) (i : ℕ)
    → i < length t
    → All P t
    → (c : ℕ) × (index t i ≡ ok c) × P c
index_in [] i h a = absurd (omega arith)
index_in (c ∷ cs) zero h (p, a) = (c, refl, p)
index_in (c ∷ cs) (suc i) h (p, a) = index_in cs i (omega arith) a

charset-OfLettersAndDigits : OfLettersAndDigits charset
charset-OfLettersAndDigits = ground arith

not_valid : (t : Text) → is_valid_chain_id (codes "chain-" ++ t) ≡ false
unfolding is_valid_chain_id evmos_chain_id group separator prefix after_prefix ◌>>=◌
not_valid t = ground arith

module _ (env : Env) where
  -- A random text is always made; it has the size that was asked for, and no other characters than
  -- lower-case letters and digits.
  pub generate_random_string_lem :
      (size : ℕ) (s : env.State)
      → (t : Text) × ((generate_random_string env size s).0 ≡ ok t)
        × (length t ≡ size)
        × OfLettersAndDigits t
  unfolding generate_random_string ◌>>=◌
  generate_random_string_lem zero s = ([], refl, refl, tt)
  generate_random_string_lem (suc size) s =
      let i : ℕ = (env.intn (length charset) s).0 in
      let s1 : env.State = (env.intn (length charset) s).1 in
      let (c, found, p) =
        index_in {P = λ c. is_letter_or_digit c ≡ true} charset i
          (env.intn-lt (length charset) s (omega arith)) charset-OfLettersAndDigits in
      let (t, made, size_is, a) = generate_random_string_lem size s1 in
      (c ∷ t, rw (found, made), omega arith, (p, a))

  -- Where no chain id is given one is always made, of `chain-` and six lower-case letters and digits.
  -- It is no identifier in the sense of `IsValidChainID`.
  pub random_chain_id :
      (s : env.State)
      → (t : Text) × ((chain_id_or_random env [] s).0 ≡ ok (codes "chain-" ++ t))
        × (length t ≡ 6)
        × OfLettersAndDigits t
        × (is_valid_chain_id (codes "chain-" ++ t) ≡ false)
  unfolding ◌>>=◌
  random_chain_id s =
      let (t, made, size_is, a) = generate_random_string_lem 6 s in
      (t, rw made, size_is, a, not_valid t)

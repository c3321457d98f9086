-- ===== src/App/Export/Heights.antt =====
-- What an export for height zero leaves in the stores: no height of the old chain.
pub mod Zero
use mono_chain.Prelude.{
  ℕ, ◌≡◌, refl, sym, ap, ◌∙◌, ◌⊎◌, inl, inr, Bool, true, false, String, List, [], ◌∷◌, All,
  bytes_eq, bytes_eq→eq, bytes_eq_self, Bool-cases, arith,
}
use mono_chain.Sdk.Outcome.{
  Result, ok, err, Action, pure, Ensures, >>=-Ensures, Ensures-of, Ensures-ok, ◌>>=◌, ◌>>◌,
}
use mono_chain.Sdk.Collections.{Map}
use mono_chain.Sdk.Address.{Address}
use mono_chain.App.Export.{
  Entry, Validator, SigningInfo, Keepers, Ctx, rewrite_all, reset_entries, reset_start,
  reset_validator, reset_validators, any_given, is_member, on_validators,
}

-- The key is one of those in the list.
abbrev pub Listed : {V : Type 0} → Address → List (Address × V) → Type 0
Listed key [] = ⊥
Listed key ((j, v) ∷ es) = (key ≡ j) ⊎ Listed key es

module _ {V : Type 0} (m : Map Address V (λ v. v)) (P : Address → V → Type 0) where
  -- What is stored under the key is as it has to be.
  abbrev pub Settled : Address → m.State → Type 0
  Settled key s = (v : V) × (m.get key s ≡ ok v) × P key v

  pub Settled-set :
      (key j : Address) (v : V) (s : m.State)
      → (m.set j v s).0 ≡ ok tt
      → P j v
      → Settled key s ⊎ (key ≡ j)
      → Settled key (m.set j v s).1
  Settled-set key j v s done good h = elim (Bool-cases (bytes_eq key j)) [
    | inl same ↦ let e = bytes_eq→eq key j same in (v, rw e (m.get-set_self j v s done), rw e good)
    | inr other ↦
        let ne : key ≡ j → ⊥ = λ e. cc (other, bytes_eq_self j, e) in
        elim h [
          | inl (w, is_w, fine) ↦ (w, m.get-set_ne key j v s done ne ∙ is_w, fine)
          | inr e ↦ absurd (ne e)
        ]
  ]

  module _ (f : V → V) (good : (key : Address) (v : V) → P key (f v)) where
    -- After the loop every key in the list is settled, and so is what was settled before it.
    pub rewrite_all-Ensures :
        (key : Address) (es : List (Address × V)) (s : m.State)
        → Settled key s ⊎ Listed key es
        → Ensures (λ _ s'. Settled key s') (rewrite_all m f es s)
    unfolding rewrite_all
    rewrite_all-Ensures key [] s (inl settled) = settled
    rewrite_all-Ensures key [] s (inr none) = absurd none
    rewrite_all-Ensures key ((j, v) ∷ es) s h =
        >>=-Ensures (λ _ s'. Settled key s') (m.set j (f v)) (λ _. rewrite_all m f es) s
          λ _ p. rewrite_all-Ensures key es (m.set j (f v) s).1 (elim h [
            | inl settled ↦ inl (Settled-set key j (f v) s p (good j v) (inl settled))
            | inr (inl e) ↦ inl (Settled-set key j (f v) s p (good j v) (inr e))
            | inr (inr later) ↦ inr later
          ])

pub reset_entries-All : (es : List Entry) → All (λ e. e.creation_height ≡ 0) (reset_entries es)
unfolding reset_entries
reset_entries-All [] = tt
reset_entries-All (e ∷ es) = (refl, reset_entries-All es)

module _ (k : Keepers) (allowed : List String) where
  -- A validator without an unbonding height, which is jailed unless the list is empty or names it.
  abbrev pub IsReset : Address → Validator → Type 0
  IsReset addr v =
      (v.unbonding_height ≡ 0)
      × ((text : String)
          → k.validator_codec.bytes_to_string addr ≡ ok text
          → any_given allowed ≡ true
          → is_member text allowed ≡ false
          → v.jailed ≡ true)

  is_reset :
      (addr : Address) (text : String) (v : Validator)
      → k.validator_codec.bytes_to_string addr ≡ ok text
      → IsReset addr (reset_validator allowed text v)
  is_reset addr text v e = (
    refl,
    λ text' e' given out.
        let both : ok text ≡ ok text' = sym e ∙ e' in
        let same : text ≡ text' = cc both in rw (same, given, out),
  )

  pub reset_validators-Ensures :
      (key : Address) (vs : List (Address × Validator)) (c : Ctx k)
      → Settled k.validators IsReset key c.validators ⊎ Listed key vs
      → Ensures
          (λ _ c'. Settled k.validators IsReset key c'.validators)
          (reset_validators k allowed vs c)
  unfolding reset_validators
  reset_validators-Ensures key [] c (inl settled) = settled
  reset_validators-Ensures key [] c (inr none) = absurd none
  reset_validators-Ensures key ((addr, v) ∷ vs) c h =
      let P : Unit {0} → Ctx k → Type 0 = λ _ c'. Settled k.validators IsReset key c'.validators in
      >>=-Ensures P (reset_validators k allowed vs) _ c λ _ p1. >>=-Ensures P _ _ _ λ validator p2.
        >>=-Ensures P _ _ _ λ text p3. Ensures-of P _ λ _ p4.
          Settled-set k.validators IsReset key addr (reset_validator allowed text validator)
            (reset_validators k allowed vs c).1.validators p4 (is_reset addr text validator p3)
            (elim h [
              | inl settled ↦
                  inl (Ensures-ok P _ (reset_validators-Ensures key vs c (inl settled)) p1)
              | inr (inl e) ↦ inr e
              | inr (inr later) ↦
                  inl (Ensures-ok P _ (reset_validators-Ensures key vs c (inr later)) p1)
            ])

  -- After the loop over the validators every validator that it visited has no unbonding height,
  -- and is jailed where the list of those that may stay out of jail is not empty and does not name
  -- it.
  pub reset_validators_lem :
      (c : Ctx k)
      → (reset_validators k allowed (k.validators.entries c.validators) c).0 ≡ ok tt
      → (key : Address) → Listed key (k.validators.entries c.validators)
      → Settled k.validators IsReset key
          (reset_validators k allowed (k.validators.entries c.validators) c).1.validators
  reset_validators_lem c done key listed =
      Ensures-ok (λ _ c'. Settled k.validators IsReset key c'.validators) _
        (reset_validators-Ensures key (k.validators.entries c.validators) c (inr listed)) done

-- ===== src/Burn/Genesis/Valid.antt =====
-- `GenesisState.Validate` of x/burn against what a genesis state has to be.
use mono_chain.Prelude.{
  ◌≡◌, ◌↔◌, refl, ◌⊎◌, inl, inr, true, false, List, [], ◌∷◌, Bool-cases, arith,
}
use mono_chain.Prelude.Int.{ℤ, pos, ◌≤ℤ◌, ltb_ℤ}
use mono_chain.Sdk.Outcome.{Result-cases, ok}
use mono_chain.Sdk.Amounts.{MathInt, int}
use mono_chain.Sdk.Address.{Address, Codec}
use mono_chain.Burn.Types.{
  AccountBurnRecord, GenesisState, is_negative_total, is_bad_total, validate_params,
  validate_records, validate_genesis,
}

-- A number that is not negative.
abbrev pub IsTotal : MathInt → Type 0
IsTotal x = (v : ℤ) × (x ≡ int v) × (pos 0 ≤ℤ v)

module _ (codec : Codec) where
  -- Every record has an address that decodes and a total.
  abbrev pub AreRecords : List AccountBurnRecord → Type 0
  AreRecords [] = Unit {0}
  AreRecords (r ∷ rs) =
      ((a : Address) × (codec.string_to_bytes r.address ≡ ok a)) × IsTotal r.total × AreRecords rs

  is_bad_total-IsTotal :
      (x : MathInt)
      → ((is_bad_total x ≡ true) × ¬ IsTotal x) ⊎ ((is_bad_total x ≡ false) × IsTotal x)
  is_bad_total-IsTotal MathInt.nil = inl (refl, λ (v, e, _). cc)
  is_bad_total-IsTotal (int v) = elim (Bool-cases (ltb_ℤ v (pos 0))) [
    | inl less ↦ inl (less, λ (w, e, h). ground arith)
    | inr more ↦ inr (more, (v, refl, ground arith))
  ]

  records_iff : (rs : List AccountBurnRecord) → (validate_records codec rs ≡ ok tt) ↔ AreRecords rs
  unfolding validate_records
  records_iff [] = (λ _. tt, λ _. refl)
  records_iff (r ∷ rs) = elim (Result-cases (codec.string_to_bytes r.address)) [
    | inr (e, bad) ↦ (λ h. absurd (cc (rw bad at h)), λ ((a, good), _, _). absurd (cc (good, bad)))
    | inl (a, good) ↦ elim (is_bad_total-IsTotal r.total) [
      | inl (e, bad) ↦ (λ h. absurd (cc (rw (good, e) at h)), λ (_, t, _). absurd (bad t))
      | inr (e, total) ↦ (
        λ h. ((a, good), total, (records_iff rs).0 (rw (good, e) at h)),
        λ (_, _, rest). rw (good, e) ((records_iff rs).1 rest),
      )
    ]
  ]

  is_negative_total-IsTotal :
      (x : MathInt) → (is_negative_total x ≡ false) ↔ ((x ≡ MathInt.nil) ⊎ IsTotal x)
  is_negative_total-IsTotal MathInt.nil = (λ _. inl refl, λ _. refl)
  is_negative_total-IsTotal (int v) = (
    λ h. inr (v, refl, ground arith),
    λ h. elim h [ inl e ↦ absurd (cc e) | inr (w, e, low) ↦ ground arith ],
  )

  -- `GenesisState.Validate` accepts a genesis state exactly where its parameters are valid, its
  -- total is absent or not negative, and each of its records has an address that decodes and a
  -- total that is not negative.
  pub validate_genesis_iff :
      (gs : GenesisState)
      → (validate_genesis codec gs ≡ ok tt) ↔ (
          (validate_params gs.params ≡ ok tt)
          × ((gs.total ≡ MathInt.nil) ⊎ IsTotal gs.total)
          × AreRecords gs.account_totals)
  unfolding validate_genesis
  validate_genesis_iff gs = elim (Result-cases (validate_params gs.params)) [
    | inr (e, bad) ↦ (λ h. absurd (cc (rw bad at h)), λ (good, _, _). absurd (cc (good, bad)))
    | inl (_, good) ↦ elim (Bool-cases (is_negative_total gs.total)) [
      | inl low ↦ (
        λ h. absurd (cc (rw (good, low) at h)),
        λ (_, t, _). absurd (cc (low, (is_negative_total-IsTotal gs.total).1 t)),
      )
      | inr fine ↦ (
        λ h. (
          good,
          (is_negative_total-IsTotal gs.total).0 fine,
          (records_iff gs.account_totals).0 (rw (good, fine) at h),
        ),
        λ (_, _, rest). rw (good, fine) ((records_iff gs.account_totals).1 rest),
      )
    ]
  ]

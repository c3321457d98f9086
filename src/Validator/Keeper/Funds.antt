-- ===== src/Validator/Keeper/Funds.antt =====
-- `validateRegistrationFunds` against what a registration has to bring.
use mono_chain.Prelude.{
  ◌≡◌, ◌≢◌, refl, ap, ◌⊎◌, inl, inr, not, Bool, true, false, String, str_eq, eq_iff, arith,
  Bool-cases,
}
use mono_chain.Prelude.Int.{ℤ, ◌≤ℤ◌, ltb_ℤ}
use mono_chain.Sdk.Outcome.{
  Error, burn_denom_mismatch, burn_below_required, delegation_denom_mismatch,
  min_self_delegation_below_required, validator, Result, ok, err,
}
use mono_chain.Sdk.Amounts.{MathInt, int}
use mono_chain.Validator.Types.{Params, MsgRegisterValidator}
use mono_chain.Validator.Keeper.{is_below, refuse_if, validate_registration_funds}

-- Both are numbers, and the first is the larger or equal one.
abbrev pub AtLeast : MathInt → MathInt → Type 0
AtLeast x r = (a b : ℤ) × (x ≡ int a) × (r ≡ int b) × (b ≤ℤ a)

-- What a registration brings: the burn, the first delegation and the promised minimum reach the
-- amounts that the parameters ask for, in the denominations that they ask for.
pub record HasFunds (msg : MsgRegisterValidator) (p : Params) : Type 0 where
  pub burn_denom : msg.burn.denom ≡ p.validator_registration_burn.denom
  pub burn_amount : AtLeast msg.burn.amount p.validator_registration_burn.amount
  pub value_denom : msg.create_validator.value.denom ≡ p.validator_min_self_delegation.denom
  pub value_amount :
      AtLeast msg.create_validator.value.amount p.validator_min_self_delegation.amount
  pub promised :
      AtLeast msg.create_validator.min_self_delegation p.validator_min_self_delegation.amount

-- A required amount that is a number: the comparison never panics.
is_below-int :
    (x : MathInt) (b : ℤ)
    → ((is_below x (int b) ≡ ok true) × ¬ AtLeast x (int b))
      ⊎ ((is_below x (int b) ≡ ok false) × AtLeast x (int b))
is_below-int MathInt.nil b = inl (refl, λ (a, b', e, _, _). cc)
is_below-int (int a) b = elim (Bool-cases (ltb_ℤ a b)) [
  | inl less ↦ inl (ap ok less, λ (a', b', ea, eb, h). ground arith)
  | inr more ↦ inr (ap ok more, (a, b, refl, refl, ground arith))
]

is_below_cases :
    (x r : MathInt) (b : ℤ)
    → r ≡ int b
    → ((is_below x r ≡ ok true) × ¬ AtLeast x r) ⊎ ((is_below x r ≡ ok false) × AtLeast x r)
is_below_cases x r b e = rw e (is_below-int x b)

denom_cases :
    (x y : String) → ((not (str_eq x y) ≡ true) × (x ≢ y)) ⊎ ((not (str_eq x y) ≡ false) × (x ≡ y))
denom_cases x y = elim (Bool-cases (str_eq x y)) [
  | inl same ↦ inr (ap not same, (eq_iff x y).0 same)
  | inr other ↦ inl (ap not other, λ e. cc (other, (eq_iff x y).1 e))
]

-- What `validateRegistrationFunds` has to answer: the checks are made in this order, and the first
-- that fails names the error.
pub data Verdict (msg : MsgRegisterValidator) (p : Params) : Result (Unit {0}) → Type 0 where
  wrong_burn_denom :
      msg.burn.denom ≢ p.validator_registration_burn.denom
      → Verdict msg p (err (validator burn_denom_mismatch))
  low_burn :
      msg.burn.denom ≡ p.validator_registration_burn.denom
      → ¬ AtLeast msg.burn.amount p.validator_registration_burn.amount
      → Verdict msg p (err (validator burn_below_required))
  wrong_delegation_denom :
      msg.burn.denom ≡ p.validator_registration_burn.denom
      → AtLeast msg.burn.amount p.validator_registration_burn.amount
      → msg.create_validator.value.denom ≢ p.validator_min_self_delegation.denom
      → Verdict msg p (err (validator delegation_denom_mismatch))
  low_delegation :
      msg.burn.denom ≡ p.validator_registration_burn.denom
      → AtLeast msg.burn.amount p.validator_registration_burn.amount
      → msg.create_validator.value.denom ≡ p.validator_min_self_delegation.denom
      → (¬ AtLeast msg.create_validator.value.amount p.validator_min_self_delegation.amount)
        ⊎ (¬ AtLeast msg.create_validator.min_self_delegation
            p.validator_min_self_delegation.amount)
      → Verdict msg p (err (validator min_self_delegation_below_required))
  granted : HasFunds msg p → Verdict msg p (ok tt)

-- With required amounts that are numbers, the checks of a registration give the first error that
-- applies, in the order denomination of the burn, amount of the burn, denomination of the
-- delegation, amounts of the delegation; they pass exactly where the message brings the funds.
pub validate_registration_funds-Verdict :
    (msg : MsgRegisterValidator) (p : Params) (rb rs : ℤ)
    → p.validator_registration_burn.amount ≡ int rb
    → p.validator_min_self_delegation.amount ≡ int rs
    → Verdict msg p (validate_registration_funds msg p)
unfolding validate_registration_funds
validate_registration_funds-Verdict msg p rb rs is_rb is_rs =
    elim (denom_cases msg.burn.denom p.validator_registration_burn.denom) [
      | inl (e, ne) ↦ rw e (wrong_burn_denom ne)
      | inr (e, burn_denom) ↦ elim (is_below_cases msg.burn.amount _ rb is_rb) [
        | inl (e1, low) ↦ rw (e, e1) (low_burn burn_denom low)
        | inr (e1, burn_amount) ↦
            elim (denom_cases msg.create_validator.value.denom
              p.validator_min_self_delegation.denom) [
                | inl (e2, ne) ↦ rw (e, e1, e2) (wrong_delegation_denom burn_denom burn_amount ne)
                | inr (e2, value_denom) ↦
                    elim (is_below_cases msg.create_validator.value.amount _ rs is_rs) [
                      | inl (e3, low) ↦
                          rw (e, e1, e2, e3)
                            (low_delegation burn_denom burn_amount value_denom (inl low))
                      | inr (e3, value_amount) ↦
                          elim (is_below_cases msg.create_validator.min_self_delegation _ rs
                            is_rs) [
                              | inl (e4, low) ↦
                                  rw (e, e1, e2, e3, e4)
                                    (low_delegation burn_denom burn_amount value_denom (inr low))
                              | inr (e4, promised) ↦
                                  rw (e, e1, e2, e3, e4)
                                    (granted (record {
                                      burn_denom = burn_denom;
                                      burn_amount = burn_amount;
                                      value_denom = value_denom;
                                      value_amount = value_amount;
                                      promised = promised;
                                    }))
                            ]
                    ]
              ]
      ]
    ]

refuse_if-ok :
    (b : Result Bool) (e : Error) (rest : Result (Unit {0}))
    → refuse_if b e rest ≡ ok tt
    → (b ≡ ok false) × (rest ≡ ok tt)
refuse_if-ok (err p) e rest h = absurd (ground arith)
refuse_if-ok (ok true) e rest h = absurd (ground arith)
refuse_if-ok (ok false) e rest h = (refl, h)

AtLeast-of : (x r : MathInt) → is_below x r ≡ ok false → AtLeast x r
AtLeast-of MathInt.nil r h = absurd (ground arith)
AtLeast-of (int a) MathInt.nil h = absurd (ground arith)
AtLeast-of (int a) (int b) h = (a, b, refl, refl, ground arith)

eq-of : (x y : String) → ok (not (str_eq x y)) ≡ ok false → x ≡ y
eq-of x y h = elim (denom_cases x y) [ inl (e, _) ↦ cc | inr (_, same) ↦ same ]

-- A message that passes the checks brings the funds, whatever the parameters.
pub HasFunds-ok :
    (msg : MsgRegisterValidator) (p : Params)
    → validate_registration_funds msg p ≡ ok tt
    → HasFunds msg p
unfolding validate_registration_funds
HasFunds-ok msg p h =
    let (d1, h1) = refuse_if-ok _ _ _ h in
    let (a1, h2) = refuse_if-ok _ _ _ h1 in
    let (d2, h3) = refuse_if-ok _ _ _ h2 in
    let (a2, h4) = refuse_if-ok _ _ _ h3 in
    let (a3, _) = refuse_if-ok _ _ _ h4 in
    record {
      burn_denom = eq-of _ _ d1;
      burn_amount = AtLeast-of _ _ a1;
      value_denom = eq-of _ _ d2;
      value_amount = AtLeast-of _ _ a2;
      promised = AtLeast-of _ _ a3;
    }

funds-Verdict :
    (msg : MsgRegisterValidator) (p : Params) (r : Result (Unit {0}))
    → Verdict msg p r
    → HasFunds msg p
    → r ≡ ok tt
funds-Verdict msg p _ (wrong_burn_denom ne) h = absurd (ne h.burn_denom)
funds-Verdict msg p _ (low_burn _ low) h = absurd (low h.burn_amount)
funds-Verdict msg p _ (wrong_delegation_denom _ _ ne) h = absurd (ne h.value_denom)
funds-Verdict msg p _ (low_delegation _ _ _ (inl low)) h = absurd (low h.value_amount)
funds-Verdict msg p _ (low_delegation _ _ _ (inr low)) h = absurd (low h.promised)
funds-Verdict msg p _ (granted _) h = refl

-- A message that brings the funds passes the checks.
pub ok-HasFunds :
    (msg : MsgRegisterValidator) (p : Params)
    → HasFunds msg p
    → validate_registration_funds msg p ≡ ok tt
ok-HasFunds msg p h =
    let (_, rb, _, is_rb, _) = h.burn_amount in
    let (_, rs, _, is_rs, _) = h.value_amount in
    funds-Verdict msg p _ (validate_registration_funds-Verdict msg p rb rs is_rb is_rs) h

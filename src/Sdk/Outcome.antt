-- ===== src/Sdk/Outcome.antt =====
-- Results of handlers (x/burn/types/errors.go, x/validator/types/errors.go), and methods that
-- change a store and may fail. What a method wrote before it failed stays written.
use mono_chain.Prelude.{◌≡◌, refl, subst, ◌⊎◌, inl, inr, Bool, true, false, String, if◌then◌else◌}

-- The errors that x/burn registers.
pub data BurnError : Type 0 where
  invalid_burn_amount invalid_burn_denom invalid_burn_total invalid_fee_burn_percent : BurnError

-- The errors that x/validator registers.
pub data ValidatorError : Type 0 where
  invalid_registration_burn invalid_min_self_delegation params_read : ValidatorError
  invalid_registration_tx registration_address_mismatch : ValidatorError
  burn_denom_mismatch burn_below_required delegation_denom_mismatch : ValidatorError
  min_self_delegation_below_required : ValidatorError

-- The errors of cmd/monod, and ErrInvalidChainID, which it returns.
pub data CmdError : Type 0 where
  invalid_flags_combo chain_id_overflow invalid_chain_id : CmdError

-- `library` is any other error that a library returns, `panicked` an unwinding panic.
pub data Error : Type 0 where
  burn : BurnError → Error
  validator : ValidatorError → Error
  cmd : CmdError → Error
  invalid_signer not_found invalid_argument panicked : Error
  library : String → Error

pub data Result {ℓ} (A : Type ℓ) : Type ℓ where
  ok : A → Result A
  err : Error → Result A

pub Result-cases {ℓ} :
    {A : Type ℓ} (r : Result A) → ((a : A) × (r ≡ ok a)) ⊎ ((e : Error) × (r ≡ err e))
Result-cases (ok a) = inl (a, refl)
Result-cases (err e) = inr (e, refl)

-- `if _, err := first; err != nil { return err }`, and then what follows.
abbrev pub first_error : {A B : Type 0} → Result A → Result B → Result B
first_error (err e) second = err e
first_error (ok _) second = second

-- `a, err := first; if err != nil { return err }`, and then what follows.
abbrev pub on_ok : {A B : Type 0} → Result A → (A → Result B) → Result B
on_ok (err e) f = err e
on_ok (ok a) f = f a

-- `MustFromBech32`, `MustMarshalJSON`, and every error that the code answers by a panic or by
-- `log.Fatal`
abbrev pub must : {A : Type 0} → Result A → Result A
must (ok a) = ok a
must (err e) = err panicked

pub must-ok : {A : Type 0} (r : Result A) {a : A} → must r ≡ ok a → r ≡ ok a
must-ok (ok b) h = h
must-ok (err e) h = absurd (cc h)

-- A chain of results that is no error came past its first step.
pub on_ok_inv :
    {A B : Type 0} (r : Result A) (f : A → Result B) {b : B}
    → on_ok r f ≡ ok b
    → (a : A) × (r ≡ ok a) × (f a ≡ ok b)
on_ok_inv (ok a) f h = (a, refl, h)
on_ok_inv (err e) f h = absurd (cc h)

abbrev pub Action : Type 0 → Type 0 → Type 0
Action S A = S → Result A × S

module _ {S : Type 0} where
  abbrev pub pure : {A : Type 0} → A → Action S A
  pure a s = (ok a, s)

  abbrev pub fail : {A : Type 0} → Error → Action S A
  fail e s = (err e, s)

  -- A computation that reads no store.
  abbrev pub lift : {A : Type 0} → Result A → Action S A
  lift r s = (r, s)

  abbrev pub fail_if : Bool → Error → Action S (Unit {0})
  fail_if b e s = (if b then err e else ok tt, s)

  -- A call whose error the code answers by a panic.
  abbrev pub or_panic : {A : Type 0} → Action S A → Action S A
  or_panic m s = let (r, after) = m s in (must r, after)

  -- `if !cond { return nil }`, and the rest of the method.
  abbrev pub return_unless : Bool → Action S (Unit {0}) → Action S (Unit {0})
  return_unless true m = m
  return_unless false m = pure tt

-- Go on from an answer, or pass the error on.
abbrev pub and_then : {S A B : Type 0} → (A → Action S B) → Result A × S → Result B × S
and_then f (ok a, after) = f a after
and_then f (err e, after) = (err e, after)

infixl 5 ◌>>=◌ ◌>>◌
unfoldable pub ◌>>=◌ : {S A B : Type 0} → Action S A → (A → Action S B) → Action S B
◌>>=◌ m f s = and_then f (m s)

abbrev pub ◌>>◌ : {S A B : Type 0} → Action S A → Action S B → Action S B
m >> k = m >>= λ _. k

-- `if err != nil { return errors.Is(err, ErrNotFound) ? zero : err }`.
abbrev pub or_if_not_found {ℓ} : {A : Type ℓ} → Result A → A → Result A
or_if_not_found (ok a) z = ok a
or_if_not_found (err not_found) z = ok z
or_if_not_found (err e) z = err e

-- The answer and the state after a call that returned no error.
abbrev pub Ensures : {S A : Type 0} → (A → S → Type 0) → Result A × S → Type 0
Ensures P (ok a, s) = P a s
Ensures P (err e, s) = Unit {0}

module _ {S A : Type 0} (P : A → S → Type 0) where
  and_then-Ensures :
      {B : Type 0} (f : B → Action S A) (p : Result B × S)
      → ((b : B) → p.0 ≡ ok b → Ensures P (f b p.1))
      → Ensures P (and_then f p)
  and_then-Ensures f (ok b, after) h = h b refl
  and_then-Ensures f (err e, after) h = tt

  -- A chain ensures what its rest ensures after a first step that succeeds.
  pub >>=-Ensures :
      {B : Type 0} (m : Action S B) (f : B → Action S A) (s : S)
      → ((b : B) → (m s).0 ≡ ok b → Ensures P (f b (m s).1))
      → Ensures P ((m >>= f) s)
  unfolding ◌>>=◌
  >>=-Ensures m f s = and_then-Ensures f (m s)

  pub Ensures-ok : {a : A} (p : Result A × S) → Ensures P p → p.0 ≡ ok a → P a p.1
  Ensures-ok (ok a, s) h e = subst (λ b. P b s) (cc) h
  Ensures-ok (err x, s) h e = cc

  pub Ensures-of : (p : Result A × S) → ((a : A) → p.0 ≡ ok a → P a p.1) → Ensures P p
  Ensures-of (ok a, s) h = h a refl
  Ensures-of (err x, s) h = tt

  pub Ensures-map :
      {Q : A → S → Type 0} (p : Result A × S)
      → ((a : A) (s : S) → Q a s → P a s)
      → Ensures Q p
      → Ensures P p
  Ensures-map (ok a, s) f h = f a s h
  Ensures-map (err x, s) f h = tt

and_then-eq-ok :
    {S A B : Type 0} (f : A → Action S B) (p : Result A × S) (a : A) {b : B}
    → p.0 ≡ ok a
    → (f a p.1).0 ≡ ok b
    → (and_then f p).0 ≡ ok b
and_then-eq-ok f (ok a', after) a e h = let same : a ≡ a' = cc in rw same at h
and_then-eq-ok f (err x, after) a e h = cc

-- A chain succeeds where its first step does and its rest does after it.
pub >>=-eq-ok :
    {S A B : Type 0} (m : Action S A) (f : A → Action S B) (s : S) (a : A) {b : B}
    → (m s).0 ≡ ok a
    → (f a (m s).1).0 ≡ ok b
    → ((m >>= f) s).0 ≡ ok b
unfolding ◌>>=◌
>>=-eq-ok m f s = and_then-eq-ok f (m s)

and_then_inv :
    {S A B : Type 0} (f : A → Action S B) (p : Result A × S) {b : B}
    → (and_then f p).0 ≡ ok b
    → (a : A) × (p.0 ≡ ok a) × (and_then f p ≡ f a p.1)
and_then_inv f (ok a, after) h = (a, refl, refl)
and_then_inv f (err e, after) h = absurd (cc h)

-- A chain that returns no error came past its first step.
pub >>=_inv :
    {S A B : Type 0} (m : Action S A) (f : A → Action S B) (s : S) {b : B}
    → ((m >>= f) s).0 ≡ ok b
    → (a : A) × ((m s).0 ≡ ok a) × ((m >>= f) s ≡ f a (m s).1)
unfolding ◌>>=◌
>>=_inv m f s = and_then_inv f (m s)

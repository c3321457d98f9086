-- ===== src/Simulation/Staking.antt =====
-- app/app.go: `stakingSimWrap`, which forgives x/staking the registrations that the circuit breaker
-- refuses.
use mono_chain.Prelude.{
  ℕ, ◌≡◌, ◌≢◌, refl, ◌⊎◌, inl, inr, false, String, List, [], ◌∷◌, str_eq, eq_iff, Bool-cases,
  if◌then◌else◌,
}
use mono_chain.Sdk.Outcome.{Error, Result, Result-cases, err}
use mono_chain.Validator.Ante.{create_validator_url}

pub record OperationMsg : Type 0 where
  pub route : String
  pub name : String
  pub comment : String
  pub ok : List ℕ

-- An operation of the simulator on the input `I`: the message that it names, and the operations
-- that it asks for later, of which `F` is the type.
abbrev pub Op : Type 0 → Type 0 → Type 0
Op I F = I → OperationMsg × Result (List F)

abbrev pub forgive :
    {F : Type 0} (no_op_msg : String → String → String → OperationMsg)
    → OperationMsg
    → Result (List F)
    → OperationMsg × Result (List F)
forgive no_op_msg msg (Result.ok later) = (msg, Result.ok later)
forgive no_op_msg msg (err e) =
    if str_eq msg.name create_validator_url
    then (no_op_msg msg.route msg.name msg.comment, Result.ok [])
    else (msg, err e)

forgive_ok :
    {F : Type 0} (no_op_msg : String → String → String → OperationMsg)
    (p : OperationMsg × Result (List F)) (later : List F)
    → p.1 ≡ Result.ok later
    → forgive no_op_msg p.0 p.1 ≡ p
forgive_ok no_op_msg (msg, Result.ok l) later h = refl
forgive_ok no_op_msg (msg, err e) later h = absurd (cc h)

forgive_other :
    {F : Type 0} (no_op_msg : String → String → String → OperationMsg)
    (p : OperationMsg × Result (List F))
    → str_eq p.0.name create_validator_url ≡ false
    → forgive no_op_msg p.0 p.1 ≡ p
forgive_other no_op_msg (msg, Result.ok l) other = refl
forgive_other no_op_msg (msg, err e) other = rw other

module _ {I F : Type 0} (no_op_msg : String → String → String → OperationMsg) where
  -- The operation that takes the place of `orig`.
  unfoldable pub wrapped_op : Op I F → Op I F
  wrapped_op orig input = forgive no_op_msg (orig input).0 (orig input).1

  -- `stakingSimWrap.WeightedOperations`, of the weighted operations of x/staking
  unfoldable pub weighted_operations : List (ℕ × Op I F) → List (ℕ × Op I F)
  unfolding wrapped_op
  weighted_operations [] = []
  weighted_operations ((weight, orig) ∷ ops) = (weight, wrapped_op orig) ∷ weighted_operations ops

  -- What the wrapped operation does on one input, against the operation itself.
  abbrev pub Forgives : Op I F → Op I F → I → Type 0
  Forgives orig op input =
      ((op input ≡ orig input)
        × (((e : Error) → (orig input).1 ≢ err e) ⊎ ((orig input).0.name ≢ create_validator_url)))
      ⊎ (((orig input).0.name ≡ create_validator_url)
          × ((e : Error) × ((orig input).1 ≡ err e))
          × ((op input).1 ≡ Result.ok []))

  abbrev pub AllForgive : List (ℕ × Op I F) → List (ℕ × Op I F) → Type 0
  AllForgive [] [] = Unit {0}
  AllForgive [] (p ∷ ops') = ⊥
  AllForgive (p ∷ ops) [] = ⊥
  AllForgive ((w, orig) ∷ ops) ((w', op) ∷ ops') =
      (w' ≡ w) × ((input : I) → Forgives orig op input) × AllForgive ops ops'

  wrapped_op-Forgives : (orig : Op I F) (input : I) → Forgives orig (wrapped_op orig) input
  unfolding wrapped_op
  wrapped_op-Forgives orig input = elim (Result-cases (orig input).1) [
    | inl (later, good) ↦
        inl (forgive_ok no_op_msg (orig input) later good, inl (λ e bad. cc (good, bad)))
    | inr (e, bad) ↦ elim (Bool-cases (str_eq (orig input).0.name create_validator_url)) [
      | inl create ↦
          inr
            ((eq_iff (orig input).0.name create_validator_url).0 create, (e, bad), rw (bad, create))
      | inr other ↦ inl (
        forgive_other no_op_msg (orig input) other,
        inr (λ q. cc (other, (eq_iff (orig input).0.name create_validator_url).1 q)),
      )
    ]
  ]

  -- The wrapped operations have the weights of the operations of x/staking and do what those do,
  -- except that one that fails with MsgCreateValidator asks for nothing and returns no error.
  pub weighted_operations-AllForgive :
      (ops : List (ℕ × Op I F)) → AllForgive ops (weighted_operations ops)
  unfolding weighted_operations wrapped_op
  weighted_operations-AllForgive [] = tt
  weighted_operations-AllForgive ((w, orig) ∷ ops) =
      (refl, wrapped_op-Forgives orig, weighted_operations-AllForgive ops)

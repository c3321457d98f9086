-- ===== src/Validator/Gate.antt =====
-- Every way to a new validator after genesis: the message router behind the circuit breaker that
-- app/app.go installs, the staking precompile, and `MsgRegisterValidator`.
use mono_chain.Prelude.{
  ℕ, ◌≡◌, ◌≢◌, refl, ap, ◌∙◌, inl, inr, Bool, true, false, String, arith, Bool-cases, ◌==◌, str_eq,
}
use mono_chain.Sdk.Outcome.{Error, invalid_registration_tx, validator, Result, ok, err, Action}
use mono_chain.Validator.Types.{MsgCreateValidator}
use mono_chain.Validator.Keeper.{Keeper, Ctx, on_world}
use mono_chain.Validator.Ante.{restricted_create_validator, create_validator_url, is_allowed}

-- The message router of baseapp with a circuit breaker, over the state `S`: it asks the breaker
-- before it calls the handler of a message, and answers with an error of its own where the breaker
-- does not allow the message.
pub record Router (S : Type 0) : Type 0 where
  pub guard : Result Bool → Action S (Unit {0}) → Action S (Unit {0})
  pub refusal : Error
  pub guard_allowed :
      (handler : Action S (Unit {0})) (s : S) → guard (ok true) handler s ≡ handler s
  pub guard_refused :
      (handler : Action S (Unit {0})) (s : S) → guard (ok false) handler s ≡ (err refusal, s)

module _ (k : Keeper) (router : Router (Ctx k)) (height : ℕ) where
  -- The handler of x/staking.
  abbrev handler : MsgCreateValidator → Action (Ctx k) (Unit {0})
  handler msg = on_world (k.staking_msg_server.create_validator msg)

  -- `MsgCreateValidator` through the router: a transaction, a grant or a proposal.
  unfoldable pub route_create_validator : MsgCreateValidator → Action (Ctx k) (Unit {0})
  route_create_validator msg = router.guard (is_allowed height create_validator_url) (handler msg)

  -- `MsgCreateValidator` through the staking precompile.
  unfoldable pub precompile_create_validator : MsgCreateValidator → Action (Ctx k) (Unit {0})
  precompile_create_validator =
      restricted_create_validator (λ msg. on_world (k.staking_msg_server.create_validator msg))
        height

  -- After the genesis block both ways are shut and change nothing, and every other message passes
  -- the circuit breaker; in the genesis block both lead to x/staking.
  pub create_validator_gated :
      (msg : MsgCreateValidator) (c : Ctx k)
      → ((height ≢ 0)
          → (route_create_validator msg c ≡ (err router.refusal, c))
            × (precompile_create_validator msg c ≡ (err (validator invalid_registration_tx), c)))
        × ((height ≡ 0)
            → (route_create_validator msg c
                ≡ on_world (k.staking_msg_server.create_validator msg) c)
              × (precompile_create_validator msg c
                  ≡ on_world (k.staking_msg_server.create_validator msg) c))
        × ((url : String)
            → str_eq url create_validator_url ≡ false
            → is_allowed height url ≡ ok true)
  unfolding route_create_validator precompile_create_validator restricted_create_validator
      is_allowed
  create_validator_gated msg c = elim (Bool-cases (height == 0)) [
    | inl zero_height ↦ (
      λ later. absurd (ground arith),
      λ _. (
        ap (λ r. router.guard r (handler msg) c) (ap ok zero_height)
            ∙ router.guard_allowed (handler msg) c,
        rw zero_height refl,
      ),
      λ url other. rw other,
    )
    | inr later ↦ (
      λ _. (
        ap (λ r. router.guard r (handler msg) c) (ap ok later)
            ∙ router.guard_refused (handler msg) c,
        rw later refl,
      ),
      λ at_zero. absurd (ground arith),
      λ url other. rw other,
    )
  ]

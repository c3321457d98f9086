-- ===== src/Validator/Ante.antt =====
-- x/validator/ante/staking_restriction.go: the two guards that keep `MsgCreateValidator` to the
-- genesis block, in the staking precompile and in the message router.
use mono_chain.Prelude.{ℕ, Bool, true, String, str_eq, ◌==◌, if◌then◌else◌}
use mono_chain.Sdk.Outcome.{invalid_registration_tx, validator, Result, ok, Action, fail}
use mono_chain.Validator.Types.{MsgCreateValidator}

-- `RestrictedStakingMsgServer.CreateValidator` around the message server that it embeds.
unfoldable pub restricted_create_validator :
    {S : Type 0} (inner : MsgCreateValidator → Action S (Unit {0})) (block_height : ℕ)
    → MsgCreateValidator
    → Action S (Unit {0})
restricted_create_validator inner block_height msg =
    if block_height == 0 then inner msg else fail (validator invalid_registration_tx)

-- `sdk.MsgTypeURL(&stakingtypes.MsgCreateValidator{})`
abbrev pub create_validator_url : String
create_validator_url = "/cosmos.staking.v1beta1.MsgCreateValidator"

-- `StakingCircuitBreaker.IsAllowed`
unfoldable pub is_allowed : (block_height : ℕ) (type_url : String) → Result Bool
is_allowed block_height type_url =
    if str_eq type_url create_validator_url then ok (block_height == 0) else ok true

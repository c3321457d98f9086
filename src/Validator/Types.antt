-- ===== src/Validator/Types.antt =====
-- x/validator/types: parameters, messages, the interfaces to x/burn and x/staking.
use mono_chain.Prelude.{
  ℕ, ◌+◌, ◌≡◌, not, ◌&&◌, Bool, true, false, sym, ◌∙◌, refl, inl, inr, Bool-cases, arith, String,
  List, ◌∷◌, str_eq, if◌then◌else◌, ◌==◌,
}
use mono_chain.Prelude.Int.{pos, negsuc}
use mono_chain.Sdk.Outcome.{
  first_error, invalid_registration_burn, invalid_min_self_delegation, validator, Result, ok, err,
  Action,
}
use mono_chain.Sdk.Amounts.{MathInt, int, zero_int, Coin, Math, written_coin, coin_is_valid}
use mono_chain.Sdk.Address.{Address}
use mono_chain.Burn.Types.{default_bond_denom}

abbrev pub module_name : String
module_name = "validator"

pub record Params : Type 0 where
  pub validator_registration_burn : Coin
  pub validator_min_self_delegation : Coin

-- Parameters as they are written in a store.
abbrev pub written_params : Params → Params
written_params p = record {
  validator_registration_burn = written_coin p.validator_registration_burn;
  validator_min_self_delegation = written_coin p.validator_min_self_delegation;
}

-- `DefaultParams`; `sdk.NewCoin` does not panic on a zero amount of a valid denomination.
abbrev pub default_params : Params
default_params = record {
  validator_registration_burn = record { denom = default_bond_denom; amount = zero_int };
  validator_min_self_delegation = record { denom = default_bond_denom; amount = zero_int };
}

-- `Coin.IsZero`, read after `Coin.Validate` has refused a nil amount.
abbrev pub is_zero : MathInt → Bool
is_zero MathInt.nil = false
is_zero (int (pos n)) = n == 0
is_zero (int (negsuc n)) = false

module _ (math : Math) where
  -- `validateRegistrationBurn`
  unfoldable pub validate_registration_burn : Coin → Result (Unit {0})
  validate_registration_burn v =
      if not (math.validate_coin v)
      then err (validator invalid_registration_burn)
      else if not (is_zero v.amount) && not (str_eq v.denom default_bond_denom)
      then err (validator invalid_registration_burn)
      else ok tt

  -- `validateMinSelfDelegation`
  unfoldable pub validate_min_self_delegation : Coin → Result (Unit {0})
  validate_min_self_delegation v =
      if not (math.validate_coin v)
      then err (validator invalid_min_self_delegation)
      else if not (is_zero v.amount) && not (str_eq v.denom default_bond_denom)
      then err (validator invalid_min_self_delegation)
      else ok tt

  -- `Params.Validate`
  unfoldable pub validate_params : Params → Result (Unit {0})
  validate_params p =
      first_error (validate_registration_burn p.validator_registration_burn)
        (validate_min_self_delegation p.validator_min_self_delegation)

  -- A coin that is accepted is written as it is.
  written_coin-valid : (c : Coin) → math.validate_coin c ≡ true → written_coin c ≡ c
  written_coin-valid c h = by_amount c.amount (sym (math.validate_coin_lem c) ∙ h)
    where
      by_amount :
          (a : MathInt)
          → coin_is_valid math.valid_denom c.denom a ≡ true
          → written_coin (record { denom = c.denom; amount = a })
            ≡ record { denom = c.denom; amount = a }
      by_amount MathInt.nil h = ground arith
      by_amount (int v) h = refl

  -- Parameters that are accepted are written as they are.
  pub written_params-valid : (p : Params) → validate_params p ≡ ok tt → written_params p ≡ p
  unfolding validate_params validate_registration_burn validate_min_self_delegation
  written_params-valid p h = elim (Bool-cases (math.validate_coin p.validator_registration_burn)) [
    | inr bad ↦ absurd (cc (rw bad at h))
    | inl good ↦ elim (Bool-cases (math.validate_coin p.validator_min_self_delegation)) [
      | inr bad ↦ absurd (ground (arith, h, bad))
      | inl fine ↦
          let e1 = written_coin-valid p.validator_registration_burn good in
          let e2 = written_coin-valid p.validator_min_self_delegation fine in rw (e1, e2) refl
    ]
  ]

-- x/staking's MsgCreateValidator: the fields that this module reads, and the rest of it, which it
-- passes on.
pub record MsgCreateValidator : Type 0 where
  pub validator_address : String
  pub value : Coin
  pub min_self_delegation : MathInt
  pub rest : List ℕ

pub record MsgRegisterValidator : Type 0 where
  pub sender : String
  pub create_validator : MsgCreateValidator
  pub burn : Coin

pub record MsgUpdateParams : Type 0 where
  pub authority : String
  pub params : Params

pub record GenesisState : Type 0 where
  pub params : Params

abbrev pub default_genesis_state : GenesisState
default_genesis_state = record { params = default_params }

-- `GenesisState.Validate`
unfoldable pub validate_genesis : Math → GenesisState → Result (Unit {0})
validate_genesis math gs = validate_params math gs.params

-- The BurnKeeper of expected_keepers.go over the state `S` of the other modules, in which the
-- supply of the bond denomination and the operators of the validators can be read.
pub record BurnKeeper (S : Type 0) (supply : S → ℕ) (validators : S → List Address) : Type 0 where
  pub burn_from_account : Address → Coin → Action S (Unit {0})
  pub burns :
      (a : Address) (coin : Coin) (s : S)
      → (burn_from_account a coin s).0 ≡ ok tt
      → (n : ℕ) × (coin.amount ≡ int (pos n))
        × (supply (burn_from_account a coin s).1 + n ≡ supply s)
        × (validators (burn_from_account a coin s).1 ≡ validators s)

-- The StakingMsgServer of expected_keepers.go. A call that succeeds adds one validator, whose
-- operator is the address of the message, and moves coins without burning any.
pub record StakingMsgServer (S : Type 0) (supply : S → ℕ) (validators : S → List Address)
    (decode : String → Result Address) : Type 0 where
  pub create_validator : MsgCreateValidator → Action S (Unit {0})
  pub creates :
      (msg : MsgCreateValidator) (s : S)
      → (create_validator msg s).0 ≡ ok tt
      → (a : Address) × (decode msg.validator_address ≡ ok a)
        × (validators (create_validator msg s).1 ≡ a ∷ validators s)
        × (supply (create_validator msg s).1 ≡ supply s)

-- ===== src/Simulation/Params.antt =====
-- Random parameters: `RandomizedGenState` and `MsgUpdateParamsFactory` of both modules.
use mono_chain.Prelude.{ℕ, ◌*◌, ◌^◌, ◌<◌, ◌≤◌, ◌≡◌, arith, String, inl, inr, Bool-cases, ◌==◌}
use mono_chain.Prelude.Int.{pos}
use mono_chain.Sdk.Outcome.{ok}
use mono_chain.Sdk.Amounts.{int, dec, one, Coin, Math}
use mono_chain.Burn.Types as BurnTypes
use mono_chain.Burn.Types.{default_bond_denom}
use mono_chain.Validator.Types as ValidatorTypes

-- x/burn: a whole number of percent, which `r.Intn(100)` draws, for genesis
unfoldable pub burn_genesis_params : (drawn : ℕ) → BurnTypes.Params
burn_genesis_params drawn = record { fee_burn_percent = dec (pos (drawn * 10 ^ 16)) }

-- x/burn: what `r.DecN(math.LegacyOneDec())` draws, for a proposal
unfoldable pub burn_update : (authority : String) (drawn : ℕ) → BurnTypes.MsgUpdateParams
burn_update authority drawn = record {
  authority = authority;
  params = record { fee_burn_percent = dec (pos drawn) };
}

abbrev pub native_coin : ℕ → Coin
native_coin n = record { denom = default_bond_denom; amount = int (pos n) }

-- x/validator: two amounts below a thousand, for genesis
unfoldable pub validator_genesis_params : (burn self : ℕ) → ValidatorTypes.Params
validator_genesis_params burn self = record {
  validator_registration_burn = native_coin burn;
  validator_min_self_delegation = native_coin self;
}

-- x/validator: two amounts below a thousand, for a proposal
unfoldable pub validator_update :
    (authority : String) (burn self : ℕ) → ValidatorTypes.MsgUpdateParams
validator_update authority burn self = record {
  authority = authority;
  params = record {
    validator_registration_burn = native_coin burn;
    validator_min_self_delegation = native_coin self;
  };
}

rate_valid :
    (n : ℕ)
    → n ≤ one
    → BurnTypes.validate_params (record { fee_burn_percent = dec (pos n) }) ≡ ok tt
unfolding BurnTypes.validate_params BurnTypes.validate_fee_burn_percent
rate_valid n h = ground arith

burn_valid :
    (math : Math) (n : ℕ) → ValidatorTypes.validate_registration_burn math (native_coin n) ≡ ok tt
unfolding ValidatorTypes.validate_registration_burn
burn_valid math n = elim (Bool-cases (n == 0)) [
  | inl b ↦ rw (math.validate_coin_lem, math.alyth_valid, b)
  | inr b ↦ rw (math.validate_coin_lem, math.alyth_valid, b)
]

self_valid :
    (math : Math) (n : ℕ) → ValidatorTypes.validate_min_self_delegation math (native_coin n) ≡ ok tt
unfolding ValidatorTypes.validate_min_self_delegation
self_valid math n = elim (Bool-cases (n == 0)) [
  | inl b ↦ rw (math.validate_coin_lem, math.alyth_valid, b)
  | inr b ↦ rw (math.validate_coin_lem, math.alyth_valid, b)
]

native_valid :
    (math : Math) (burn self : ℕ)
    → ValidatorTypes.validate_params math (record {
      validator_registration_burn = native_coin burn;
      validator_min_self_delegation = native_coin self;
    })
      ≡ ok tt
unfolding ValidatorTypes.validate_params
native_valid math burn self = rw (burn_valid math burn, self_valid math self)

-- Whatever the simulator draws within its ranges, the parameters that it makes up for genesis and
-- for proposals are ones that the modules accept.
pub drawn_params_valid :
    (math : Math) (authority : String) (percent rate burn self : ℕ)
    → percent < 100
    → rate < one
    → (BurnTypes.validate_params (burn_genesis_params percent) ≡ ok tt)
      × (BurnTypes.validate_params (burn_update authority rate).params ≡ ok tt)
      × (ValidatorTypes.validate_params math (validator_genesis_params burn self) ≡ ok tt)
      × (ValidatorTypes.validate_params math (validator_update authority burn self).params ≡ ok tt)
unfolding burn_genesis_params burn_update validator_genesis_params validator_update
drawn_params_valid math authority percent rate burn self small less = (
  rate_valid (percent * 10 ^ 16) (omega arith),
  rate_valid rate (omega arith),
  native_valid math burn self,
  native_valid math burn self,
)

-- ===== src/Tests/Simulated.antt =====
-- The theorems on the simulation at concrete inputs.
use mono_chain.Prelude.{
  ℕ, String, ◌≤◌, ◌≡◌, refl, ltb, bytes_eq, [], Option, none, some, Bool-cases, inl, inr, arith,
  if◌then◌else◌,
}
use mono_chain.Sdk.Outcome.{ok}
use mono_chain.Burn.Types as BurnTypes
use mono_chain.Validator.Types as ValidatorTypes
use mono_chain.Validator.Types.{MsgRegisterValidator}
use mono_chain.Simulation.Params.{
  burn_genesis_params, burn_update, validator_genesis_params, validator_update, drawn_params_valid,
}
use mono_chain.Simulation.Staking.{OperationMsg}
use mono_chain.Simulation.Register.{
  SimAccount, Source, burn_amount, self_delegation, drawn_amount, registration, register_factory,
  Fits, register_factory-Fits,
}
use mono_chain.Tests.Money.{plain_math}
use mono_chain.Tests.Burns.{alice, two_names}
use mono_chain.Tests.Validators.{rates}

drawn_params_valid_example :
    (BurnTypes.validate_params (burn_genesis_params 25) ≡ ok tt)
    × (BurnTypes.validate_params (burn_update "gov" 7).params ≡ ok tt)
    × (ValidatorTypes.validate_params plain_math (validator_genesis_params 40 10) ≡ ok tt)
    × (ValidatorTypes.validate_params plain_math (validator_update "gov" 40 10).params ≡ ok tt)
drawn_params_valid_example =
    drawn_params_valid plain_math "gov" 25 7 40 10 (omega arith) (omega arith)

greedy_range : (lo hi n : ℕ) → ok hi ≡ ok n → lo ≤ hi → (lo ≤ n) × (n ≤ hi)
greedy_range lo hi n e h = let same : hi ≡ n = cc e in (omega arith, omega arith)

-- The largest number.
abbrev greedy : Source
greedy = record { in_range = λ lo hi. ok hi; in_range_lem = greedy_range }

abbrev rich_alice : SimAccount
rich_alice = record { address = alice; address_bech32 = "alice"; available = 500 }

abbrev alice_or_none : ℕ → Option SimAccount
alice_or_none n = if ltb 500 n then none else some rich_alice

alice_covers : (n : ℕ) (a : SimAccount) → alice_or_none n ≡ some a → n ≤ a.available
alice_covers n a e = elim (Bool-cases (ltb 500 n)) [
  | inl poor ↦ absurd (cc (rw poor at e))
  | inr covered ↦
      let q : some rich_alice ≡ some a = rw covered at e in
      let same : rich_alice ≡ a = cc q in rw (← same) (ground arith)
]

abbrev made_up : MsgRegisterValidator
made_up = registration rates rich_alice "alice" [] 490 10

simulator_makes :
    register_factory alice_or_none two_names greedy greedy [] (ok rates)
    ≡ some (rich_alice, made_up)
unfolding register_factory burn_amount self_delegation drawn_amount bytes_eq
simulator_makes = refl

register_factory-Fits_example : Fits rates rich_alice made_up
register_factory-Fits_example =
    register_factory-Fits alice_or_none two_names greedy greedy [] rates rich_alice made_up
      alice_covers refl simulator_makes

abbrev no_op : String → String → String → OperationMsg
no_op route name comment = record { route = route; name = name; comment = comment; ok = [] }

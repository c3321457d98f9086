-- ===== src/Tests/Chains.antt =====
-- The theorems on the whole application at concrete inputs.
use mono_chain.Prelude.{
  ℕ, ◌+◌, ◌*◌, ◌≤◌, ◌≡◌, refl, Bool, true, false, List, [], ◌∷◌, some, arith, bytes_eq, length,
}
use mono_chain.Prelude.Int.{pos, ◌+ℤ◌, ◌≤ℤ◌}
use mono_chain.Sdk.Outcome.{library, Result, ok, err, Action, ◌>>=◌}
use mono_chain.Sdk.Amounts.{int_limit}
use mono_chain.Sdk.Address.{Address}
use mono_chain.Burn.Types.{default_bond_denom}
use mono_chain.Burn.Keeper.{burn_from_account, burn_native, update_trackers}
use mono_chain.Burn.Server as BurnServer
use mono_chain.Burn.Growth.{IsSound}
use mono_chain.Burn.Chain.{Reach}
use mono_chain.Validator.Types.{Params, written_params}
use mono_chain.Validator.Keeper.{register_validator, resolve_sender, validate_registration_funds}
use mono_chain.Validator.Gate.{Router}
use mono_chain.Validator.History.{History}
use mono_chain.Validator.Server as ValidatorServer
use mono_chain.App.Chain.{
  Staking, AppCtx, app_validator_keeper, on_burn, Run, genesis, burned, registered,
}
use mono_chain.App.Chain.Refines.{Run-refines}
use mono_chain.App.Chain.Paid.{Run-IsPaid}
use mono_chain.App.Chain.Joins.{Run-joins}
use mono_chain.Validator.Keeper.Registration.{IsRegistered}
use mono_chain.Tests.Stores.{option_item}
use mono_chain.Tests.Ledger.{Funds, send, destroy}
use mono_chain.Tests.Burns.{alice, keeper, state, state-IsSound, msg, msg_burned}
use mono_chain.Tests.Validators.{operator_codec, rates, register}

abbrev bonded : Result Address → Action (Funds × List Address) (Unit {0})
bonded (ok a) s = (ok tt, (s.0, a ∷ s.1))
bonded (err e) s = (err e, s)

bonded_adds :
    (s : Funds × List Address) (r : Result Address)
    → (bonded r s).0 ≡ ok tt
    → (a : Address) × (r ≡ ok a)
      × ((bonded r s).1.1 ≡ a ∷ s.1)
      × (keeper.bank.supply default_bond_denom (bonded r s).1.0
          ≡ keeper.bank.supply default_bond_denom s.0)
bonded_adds s (ok a) h = (a, refl, refl, refl)
bonded_adds s (err e) h = cc

abbrev staking : Staking keeper
staking = record {
  V = List Address;
  validators = λ v. v;
  validator_address_codec = operator_codec;
  create_validator = λ msg. bonded (operator_codec.string_to_bytes msg.validator_address);
  creates = λ msg s. bonded_adds s (operator_codec.string_to_bytes msg.validator_address);
  params = option_item Params written_params;
}

abbrev guarded :
    Result Bool
    → Action (AppCtx keeper staking) (Unit {0})
    → Action (AppCtx keeper staking) (Unit {0})
guarded (err e) handler s = (err e, s)
guarded (ok true) handler s = handler s
guarded (ok false) handler s = (err (library "circuit breaker"), s)

abbrev breaker : Router (AppCtx keeper staking)
breaker = record {
  guard = guarded;
  refusal = library "circuit breaker";
  guard_allowed = λ handler s. refl;
  guard_refused = λ handler s. refl;
}

abbrev first : AppCtx keeper staking
first = record { params = some rates; world = (state, []); events = [] }

-- Alice registers, and burns forty more.
abbrev second : AppCtx keeper staking
second = (ValidatorServer.register_validator (app_validator_keeper keeper staking) register first).1

abbrev third : AppCtx keeper staking
third = (on_burn keeper staking (BurnServer.burn keeper msg) second).1

joins :
    (ValidatorServer.register_validator (app_validator_keeper keeper staking) register first).0
    ≡ ok tt
unfolding ValidatorServer.register_validator register_validator resolve_sender
    validate_registration_funds burn_from_account burn_native update_trackers ◌>>=◌ send destroy
    bytes_eq int_limit ◌+ℤ◌
joins = refl

burns_more : (on_burn keeper staking (BurnServer.burn keeper msg) second).0 ≡ ok tt
unfolding ValidatorServer.register_validator register_validator resolve_sender
    validate_registration_funds BurnServer.burn burn_from_account burn_native update_trackers ◌>>=◌
    send destroy bytes_eq int_limit ◌+ℤ◌
burns_more = refl

run : Run keeper staking breaker 7 40 first 1 (pos 0) third
run = burned (registered (genesis 0 (pos 0) refl refl) register joins) msg burns_more

Run-refines_example :
    Reach keeper first.world.0 (pos 0) third.world.0
    × ((b : ℕ) × History (app_validator_keeper keeper staking) breaker 7 40 first 1 b third)
Run-refines_example = Run-refines keeper staking breaker 7 40 (λ e. cc) run

Run-IsPaid_example :
    (s : IsSound keeper (pos 1000 +ℤ pos 0) third.world.0) × (state-IsSound.total +ℤ pos (40 * 1)
      ≤ℤ s.total)
    × (length (staking.validators third.world.1) ≤ length (staking.validators first.world.1) + 1)
Run-IsPaid_example =
    Run-IsPaid keeper staking breaker 7 40 (pos 1000) first state-IsSound rates (λ e. cc) refl
      (pos 40, refl, omega arith) run

-- Alice burns forty, and then registers.
abbrev burned_first : AppCtx keeper staking
burned_first = (on_burn keeper staking (BurnServer.burn keeper msg) first).1

Run-joins_example :
    let after =
      ValidatorServer.register_validator
        (app_validator_keeper keeper staking)
        register
        burned_first in
    (after.0 ≡ ok tt)
    × IsRegistered (app_validator_keeper keeper staking) register burned_first after.1
unfolding BurnServer.burn burn_from_account burn_native update_trackers ◌>>=◌ send destroy bytes_eq
    int_limit ◌+ℤ◌ resolve_sender validate_registration_funds
Run-joins_example =
    Run-joins keeper staking breaker 7 40 (pos 1000) 1000 register rates alice 40 (λ e. cc)
      state-IsSound tt (burned (genesis 0 (pos 0) refl refl) msg msg_burned) refl (omega arith)
      (record { count = 1; counts = refl; total_stores = λ v. refl; account_stores = λ v. refl })
      refl refl refl refl tt tt (omega arith) (omega arith) refl

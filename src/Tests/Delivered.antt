-- ===== src/Tests/Delivered.antt =====
-- Messages that burn, at concrete inputs.
use mono_chain.Prelude.{ℕ, zero, suc, ◌≤◌, ◌<◌, ◌≡◌, refl, Option, none, some, arith, bytes_eq}
use mono_chain.Prelude.Int.{pos, ◌+ℤ◌, magnitude}
use mono_chain.Sdk.Outcome.{ok, ◌>>=◌}
use mono_chain.Sdk.Amounts.{int_limit, dec_limit}
use mono_chain.Burn.Types.{new_msg_burn}
use mono_chain.Burn.Keeper.Burns.{IsBurned}
use mono_chain.Burn.Keeper.Fees.{alyth}
use mono_chain.Burn.Keeper.Room.{CanTrack}
use mono_chain.Burn.Server.{burn, begin_block}
use mono_chain.Burn.Keeper.{Ctx, burn_from_account, burn_native, update_trackers}
use mono_chain.Burn.Chain.{here, next, burned}
use mono_chain.Burn.Serves.{AccountsAreAmounts, Reach-burns, Reach-begins}
use mono_chain.Burn.Types.{default_bond_denom, validate_genesis, validate_params, validate_records}
use mono_chain.Burn.Growth.{IsSound}
use mono_chain.Burn.Genesis.{init_genesis}
use mono_chain.Burn.Genesis.Start.{sum_records, init_genesis-IsSound}
use mono_chain.Tests.Burns.{genesis, empty, name_of}
use mono_chain.Prelude.{[], ◌∷◌}
use mono_chain.Tests.Ledger.{send, destroy}
use mono_chain.Simulation.Params.{native_coin}
use mono_chain.Simulation.Register.{SimAccount}
use mono_chain.Simulation.Burns.{Subset, burn_factory}
use mono_chain.Tests.Burns.{keeper, state, alice, msg, msg_burned, state-IsSound}

fits : (n : ℕ) → n ≤ 500 → magnitude (pos 0 +ℤ pos n) < int_limit
unfolding int_limit ◌+ℤ◌
fits n h = grind arith

takes : (n : ℕ) → n ≤ 500 → CanTrack keeper alice n state
takes n h = record {
  count = 0;
  counts = refl;
  total = pos 0;
  is_total = refl;
  total_fits = fits n h;
  total_stores = λ v. refl;
  account = pos 0;
  is_account = refl;
  account_fits = fits n h;
  account_stores = λ v. refl;
}

-- Alice burns forty, and then forty more.
abbrev later : Ctx keeper
later = (burn keeper msg state).1

Reach-burns_example :
    ((burn keeper (new_msg_burn "alice" (alyth 40)) later).0 ≡ ok tt)
    × IsBurned keeper alice alice
        (alyth 40)
        later
        (burn keeper (new_msg_burn "alice" (alyth 40)) later).1
unfolding int_limit ◌+ℤ◌ burn burn_from_account burn_native update_trackers ◌>>=◌ send destroy
    bytes_eq
Reach-burns_example =
    Reach-burns keeper (pos 1000) 1000 "alice" alice 40 state-IsSound tt
      (next (here (pos 0) refl) (burned msg msg_burned)) refl (omega arith)
      (record { count = 1; counts = refl; total_stores = λ v. refl; account_stores = λ v. refl })
      refl (omega arith) tt tt (omega arith) (omega arith)

Reach-begins_example : (begin_block keeper later).0 ≡ ok tt
unfolding int_limit dec_limit ◌+ℤ◌ burn burn_from_account burn_native update_trackers ◌>>=◌ send
    destroy bytes_eq
Reach-begins_example =
    Reach-begins keeper (pos 1000) 1000 state-IsSound tt
      (next (here (pos 0) refl) (burned msg msg_burned)) refl (omega arith) (omega arith)
      (record { count = 1; counts = refl; total_stores = λ v. refl; account_stores = λ v. refl }) tt
      tt tt (omega arith)

-- All but one, where there is more than one.
abbrev all_but_one : ℕ → Option ℕ
all_but_one zero = none
all_but_one (suc zero) = none
all_but_one (suc (suc n)) = some (suc n)

all_but_one_lem : (available n : ℕ) → all_but_one available ≡ some n → (0 < n) × (n ≤ available)
all_but_one_lem zero n e = absurd (cc e)
all_but_one_lem (suc zero) n e = absurd (cc e)
all_but_one_lem (suc (suc m)) n e = let same : suc m ≡ n = cc e in (omega arith, omega arith)

abbrev thrifty : Subset
thrifty = record { draw = all_but_one; draw_lem = all_but_one_lem }

abbrev saver : SimAccount
saver = record { address = alice; address_bech32 = "alice"; available = 500 }

drawn : burn_factory (some saver) thrifty ≡ some (saver, new_msg_burn "alice" (native_coin 499))
unfolding burn_factory
drawn = refl

genesis_loads : (init_genesis keeper genesis empty).0 ≡ ok tt
unfolding init_genesis ◌>>=◌ bytes_eq
genesis_loads = refl

init_genesis-IsSound_example :
    let after = (init_genesis keeper genesis empty).1 in
    IsSound keeper
      (sum_records genesis.account_totals +ℤ pos (keeper.bank.supply default_bond_denom after.bank))
      after
    × AccountsAreAmounts keeper after
unfolding bytes_eq ◌+ℤ◌ validate_genesis validate_params validate_records
init_genesis-IsSound_example =
    init_genesis-IsSound keeper name_of genesis ((11 ∷ []) ∷ alice ∷ []) empty refl refl refl refl
      (refl, refl, ((λ e. cc), tt), (refl, refl, tt, tt)) (refl, (refl, tt)) genesis_loads

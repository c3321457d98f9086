-- ===== src/Tests/Burns.antt =====
-- The theorems on x/burn at concrete inputs.
use mono_chain.Prelude.{
  map, ℕ, ◌≤◌, ◌≡◌, refl, String, [], ◌∷◌, none, some, bytes_eq, str_eq, if◌then◌else◌, ◌⊎◌, ◌≢◌,
}
use mono_chain.Prelude.Int.{pos, ◌+ℤ◌}
use mono_chain.Sdk.Outcome.{Error, ok, err, library, invalid_signer, ◌>>=◌}
use mono_chain.Sdk.Amounts.{MathInt, int, dec, Coin, one, int_limit, dec_limit, written_amount}
use mono_chain.Sdk.Address.{Address, Codec}
use mono_chain.Burn.Types.{
  Params, written_params, written_record, MsgBurn, MsgUpdateParams, GenesisState, validate_params,
}
use mono_chain.Burn.Keeper.{
  Keeper, Ctx, process_fee_burn, burn_from_account, burn_from_module, burn_native, update_trackers,
}
use mono_chain.Burn.Keeper.Burns.{IsBurned, burn_from_account_lem}
use mono_chain.Burn.Keeper.Fees.{IsFeeBurned, share, process_fee_burn_lem}
use mono_chain.Burn.Server
use mono_chain.Burn.Server.Gate.{update_params_cases}
use mono_chain.Burn.Growth.{IsSound}
use mono_chain.Burn.Chain.{here, next, burned, moved, Reach-IsSound}
use mono_chain.Burn.Genesis.{init_genesis, export_genesis}
use mono_chain.Prelude.{◌↔◌}
use mono_chain.Burn.Types.{validate_genesis}
use mono_chain.Burn.Genesis.Valid.{IsTotal, AreRecords, validate_genesis_iff}
use mono_chain.Burn.Genesis.RoundTrip.{export-init}
use mono_chain.Burn.Totals.{sum_totals}
use mono_chain.Tests.Stores.{option_item, number_sequence, pair_map}
use mono_chain.Tests.Money.{plain_math}
use mono_chain.Tests.Ledger.{memory_bank, named, Funds, send, destroy}
use mathlib.Core.List.{Perm}

abbrev pub alice : Address
alice = 10 ∷ []

abbrev pub name_of : Address → String
name_of a = if bytes_eq a alice then "alice" else "bob"

abbrev pub two_names : Codec
two_names = record {
  string_to_bytes = λ s.
      if str_eq s "alice"
      then ok alice
      else if str_eq s "bob"
      then ok (11 ∷ [])
      else err (library "bech32");
  bytes_to_string = λ a. ok (name_of a);
}

abbrev pub keeper : Keeper
keeper = record {
  address_codec = two_names;
  authority = "gov";
  params = option_item Params written_params;
  global_burn_count = number_sequence;
  global_burn_total = option_item MathInt written_amount;
  account_burn_total = pair_map written_amount;
  bank = memory_bank;
  math = plain_math;
}

-- A quarter of the fees is burned.
abbrev pub quarter : ℕ
quarter = 250_000_000_000_000_000

abbrev pub rate : Params
rate = record { fee_burn_percent = dec (pos quarter) }

abbrev pub funds : Funds
funds = record {
  balance = λ a d. if bytes_eq a alice then 500 else if bytes_eq a (2 ∷ []) then 103 else 0;
  supply = λ d. 1000;
}

abbrev pub state : Ctx keeper
state = record {
  params = some rate;
  count = 0;
  total = none;
  accounts = [];
  bank = funds;
  events = [];
}

fee_burned : (process_fee_burn keeper state).0 ≡ ok tt
unfolding process_fee_burn burn_from_module burn_native update_trackers ◌>>=◌ send destroy bytes_eq
    int_limit dec_limit ◌+ℤ◌
fee_burned = refl

process_fee_burn_example :
    IsFeeBurned keeper rate
      (share quarter (keeper.bank.balance (named "fee_collector") "alyth" funds))
      state
      (process_fee_burn keeper state).1
    × (quarter ≤ one
        → share quarter (keeper.bank.balance (named "fee_collector") "alyth" funds)
          ≤ keeper.bank.balance (named "fee_collector") "alyth" funds)
process_fee_burn_example = process_fee_burn_lem keeper state rate quarter refl refl fee_burned

abbrev pub gift : Coin
gift = record { denom = "alyth"; amount = int (pos 40) }

pub alice_burned : (burn_from_account keeper alice gift state).0 ≡ ok tt
unfolding burn_from_account burn_native update_trackers ◌>>=◌ send destroy bytes_eq int_limit ◌+ℤ◌
alice_burned = refl

burn_from_account_example :
    IsBurned keeper alice alice gift state (burn_from_account keeper alice gift state).1
burn_from_account_example = burn_from_account_lem keeper alice gift state alice_burned

abbrev pub msg : MsgBurn
msg = record { from_address = "alice"; amount = gift }

pub msg_burned : (Server.burn keeper msg state).0 ≡ ok tt
unfolding Server.burn burn_from_account burn_native update_trackers ◌>>=◌ send destroy bytes_eq
    int_limit ◌+ℤ◌
msg_burned = refl

abbrev pub state-IsSound : IsSound keeper (pos 1000) state
unfolding ◌+ℤ◌ validate_params sum_totals
state-IsSound = record {
  total = pos 0;
  is_total = refl;
  balanced = refl;
  conserved = refl;
  rate = rate;
  is_rate = refl;
  valid_rate = refl;
}

-- Alice burns forty, and other modules mint five.
abbrev inflated : Funds
inflated = record ((Server.burn keeper msg state).1.bank) {
  supply = λ d. if str_eq d "alyth" then 965 else 0;
}

Reach-IsSound_example :
    IsSound keeper
      (pos 1000 +ℤ pos 5)
      (record ((Server.burn keeper msg state).1) { bank = inflated })
unfolding ◌+ℤ◌ Server.burn burn_from_account burn_native update_trackers ◌>>=◌ send destroy bytes_eq
    int_limit
Reach-IsSound_example =
    Reach-IsSound keeper (pos 1000)
      (moved (next (here (pos 0) refl) (burned msg msg_burned)) inflated (pos 5) refl) state-IsSound

abbrev raise : MsgUpdateParams
raise = record { authority = "alice"; params = rate }

update_params_cases_example :
    ((raise.authority ≢ keeper.authority)
      × (Server.update_params keeper raise state ≡ (err invalid_signer, state)))
    ⊎ ((raise.authority ≡ keeper.authority)
        × ((e : Error) × (validate_params raise.params ≡ err e)
            × (Server.update_params keeper raise state ≡ (err e, state))))
    ⊎ ((raise.authority ≡ keeper.authority)
        × (validate_params raise.params ≡ ok tt)
        × (Server.update_params keeper raise state ≡ (
          (keeper.params.set raise.params state.params).0,
          record state { params = (keeper.params.set raise.params state.params).1 },
        )))
update_params_cases_example = update_params_cases keeper raise state

abbrev pub genesis : GenesisState
genesis = record {
  params = rate;
  count = 7;
  total = int (pos 12);
  account_totals =
      record { address = "bob"; total = int (pos 5) }
      ∷ record { address = "alice"; total = int (pos 7) }
      ∷ [];
}

abbrev pub empty : Ctx keeper
empty = record { params = none; count = 0; total = none; accounts = []; bank = funds; events = [] }

genesis_loads : (init_genesis keeper genesis empty).0 ≡ ok tt
unfolding init_genesis ◌>>=◌ bytes_eq
genesis_loads = refl

export-init_example :
    (out : GenesisState) × (export_genesis keeper (init_genesis keeper genesis empty).1 ≡ ok out)
    × (out.params ≡ written_params genesis.params)
    × (out.count ≡ genesis.count)
    × (out.total ≡ written_amount genesis.total)
    × Perm out.account_totals (map written_record genesis.account_totals)
unfolding bytes_eq
export-init_example =
    export-init keeper name_of (λ a. refl) genesis ((11 ∷ []) ∷ alice ∷ []) empty refl refl
      (refl, refl, ((λ e. cc), tt), (refl, refl, tt, tt)) (refl, (refl, tt)) genesis_loads

validate_genesis_iff_example : (validate_genesis two_names genesis ≡ ok tt) ↔ (
    (validate_params genesis.params ≡ ok tt)
    × ((genesis.total ≡ MathInt.nil) ⊎ IsTotal genesis.total)
    × AreRecords two_names genesis.account_totals)
validate_genesis_iff_example = validate_genesis_iff two_names genesis

-- ===== src/Tests/Modules.antt =====
-- The theorems on the JSON of the modules at concrete inputs; JSON is the written value itself.
use mono_chain.Prelude.{◌≡◌, refl, sym, [], ◌∷◌, map, bytes_eq}
use mono_chain.Sdk.Outcome.{ok, ◌>>=◌}
use mono_chain.Sdk.Json.{JsonCodec}
use mono_chain.Burn.Types.{
  GenesisState, default_genesis_state, written_params, written_record, written_genesis,
  validate_params, validate_fee_burn_percent, validate_records,
}
use mono_chain.Burn.Types
use mono_chain.Sdk.Amounts.{written_amount}
use mono_chain.Burn.Genesis
use mono_chain.Burn.Module.{
  AppModule, new_app_module, validate_genesis, init_genesis, export_genesis,
}
use mono_chain.Burn.Module.Loading.{TakesWrites, validated_loads, json_round_trip}
use mono_chain.Tests.Burns.{keeper, two_names, alice, name_of, genesis, empty}
use mathlib.Core.List.{Perm}

abbrev pub plain_json : JsonCodec GenesisState written_genesis
plain_json = record {
  Raw = GenesisState;
  marshal = λ gs. ok (written_genesis gs);
  unmarshal = ok;
  unmarshal-marshal = λ gs raw h. sym h;
}

abbrev burn_module : AppModule
burn_module = new_app_module plain_json keeper two_names

takes_writes : TakesWrites keeper
takes_writes = record {
  params = λ v s. refl;
  count = λ v s. refl;
  total = λ v s. refl;
  accounts = λ a v s. refl;
}

is_valid : validate_genesis burn_module genesis ≡ ok tt
unfolding validate_genesis Types.validate_genesis validate_params validate_fee_burn_percent
    validate_records
is_valid = refl

validated_loads_example : (init_genesis burn_module genesis empty).0 ≡ ok tt
validated_loads_example = validated_loads keeper takes_writes plain_json genesis empty is_valid

exported :
    export_genesis burn_module (init_genesis burn_module genesis empty).1
    ≡ ok (written_genesis genesis)
unfolding export_genesis init_genesis Genesis.init_genesis Genesis.export_genesis ◌>>=◌ bytes_eq
exported = refl

json_round_trip_example :
    (out : GenesisState) × (plain_json.unmarshal (written_genesis genesis) ≡ ok out)
    × (out.params ≡ written_params genesis.params)
    × (out.count ≡ genesis.count)
    × (out.total ≡ written_amount genesis.total)
    × Perm out.account_totals (map written_record genesis.account_totals)
unfolding bytes_eq
json_round_trip_example =
    json_round_trip keeper plain_json name_of (λ a. refl) genesis genesis ((11 ∷ []) ∷ alice ∷ [])
      empty refl refl refl (refl, refl, ((λ e. cc), tt), (refl, refl, tt, tt)) (refl, (refl, tt))
      validated_loads_example (written_genesis genesis) exported

-- ===== src/Tests/Validators.antt =====
-- The theorems on x/validator at concrete inputs, over the burn keeper of the app.
use mono_chain.Prelude.{
  Bool, false, ℕ, ◌+◌, ◌≡◌, ◌≢◌, refl, sym, true, false, String, List, [], ◌∷◌, str_eq, bytes_eq,
  Option, some, none, arith, if◌then◌else◌,
}
use mono_chain.Prelude.Int.{pos, ◌+ℤ◌}
use mono_chain.Sdk.Outcome.{
  invalid_registration_tx, validator, library, Result, ok, err, Action, ◌>>=◌,
}
use mono_chain.Sdk.Amounts.{int, int_limit}
use mono_chain.Sdk.Address.{Address, Codec}
use mono_chain.Burn.Keeper.{burn_from_account, burn_native, update_trackers}
use mono_chain.Validator.Types.{Params, written_params, MsgCreateValidator, MsgRegisterValidator}
use mono_chain.Validator.Keeper.{
  Keeper, Ctx, on_world, register_validator, resolve_sender, validate_registration_funds,
}
use mono_chain.Validator.Keeper.Funds.{Verdict, validate_registration_funds-Verdict}
use mono_chain.Validator.Keeper.Registration.{IsRegistered, register_validator_lem}
use mono_chain.Validator.Gate.{
  Router, route_create_validator, precompile_create_validator, create_validator_gated,
}
use mono_chain.Validator.History.{IsPaid, registered, start, History-IsPaid}
use mono_chain.Validator.Server
use mono_chain.Validator.Ante.{create_validator_url, is_allowed}
use mono_chain.Validator.Wiring.{World, bond_supply, operators, app_burn_keeper}
use mono_chain.Sdk.Json.{JsonCodec}
use mono_chain.Validator.Types.{GenesisState}
use mono_chain.Tests.Stores.{option_item}
use mono_chain.Tests.Money.{plain_math}
use mono_chain.Tests.Ledger.{send, destroy}
use mono_chain.Tests.Burns.{keeper, state, alice, two_names, gift}

abbrev W : Type 0
W = World keeper {V = List Address} (λ v. v)

abbrev pub operator_codec : Codec
operator_codec = record {
  string_to_bytes = λ s. if str_eq s "valalice" then ok alice else err (library "bech32");
  bytes_to_string = λ a. ok "valalice";
}

abbrev recorded : Result Address → Action W (Unit {0})
recorded (ok a) w = (ok tt, (w.0, a ∷ w.1))
recorded (err e) w = (err e, w)

abbrev create : MsgCreateValidator → Action W (Unit {0})
create msg = recorded (operator_codec.string_to_bytes msg.validator_address)

pub decoded :
    (w : W) (r : Result Address)
    → (recorded r w).0 ≡ ok tt
    → (a : Address) × (r ≡ ok a)
      × (operators keeper {V = List Address} (λ v. v) (recorded r w).1
          ≡ a ∷ operators keeper {V = List Address} (λ v. v) w)
      × (bond_supply keeper {V = List Address} (λ v. v) (recorded r w).1
          ≡ bond_supply keeper {V = List Address} (λ v. v) w)
decoded w (ok a) h = (a, refl, refl, refl)
decoded w (err e) h = cc

abbrev pub validator_keeper : Keeper
validator_keeper = record {
  World = W;
  supply = bond_supply keeper {V = List Address} (λ v. v);
  validators = operators keeper {V = List Address} (λ v. v);
  address_codec = two_names;
  validator_address_codec = operator_codec;
  authority = "gov";
  burn_keeper = app_burn_keeper keeper {V = List Address} (λ v. v);
  staking_msg_server = record {
    create_validator = create;
    creates = λ msg w. decoded w (operator_codec.string_to_bytes msg.validator_address);
  };
  params = option_item Params written_params;
  math = plain_math;
}

abbrev guarded :
    Result Bool
    → Action (Ctx validator_keeper) (Unit {0})
    → Action (Ctx validator_keeper) (Unit {0})
guarded (err e) handler s = (err e, s)
guarded (ok true) handler s = handler s
guarded (ok false) handler s = (err (library "circuit breaker"), s)

abbrev breaker : Router (Ctx validator_keeper)
breaker = record {
  guard = guarded;
  refusal = library "circuit breaker";
  guard_allowed = λ handler s. refl;
  guard_refused = λ handler s. refl;
}

-- A registration burns forty, and delegates ten.
abbrev pub rates : Params
rates = record {
  validator_registration_burn = record { denom = "alyth"; amount = int (pos 40) };
  validator_min_self_delegation = record { denom = "alyth"; amount = int (pos 10) };
}

abbrev pub start_of : Option Params → Ctx validator_keeper
start_of p = record { params = p; world = (state, []); events = [] }

abbrev pub register : MsgRegisterValidator
register = record {
  sender = "alice";
  create_validator = record {
    validator_address = "valalice";
    value = record { denom = "alyth"; amount = int (pos 25) };
    min_self_delegation = int (pos 10);
    rest = [];
  };
  burn = gift;
}

validate_registration_funds-Verdict_example :
    Verdict register rates (validate_registration_funds register rates)
validate_registration_funds-Verdict_example =
    validate_registration_funds-Verdict register rates (pos 40) (pos 10) refl refl

alice_registered :
    (Server.register_validator validator_keeper register (start_of (some rates))).0 ≡ ok tt
unfolding Server.register_validator register_validator resolve_sender validate_registration_funds
    burn_from_account burn_native update_trackers ◌>>=◌ send destroy bytes_eq int_limit ◌+ℤ◌
alice_registered = refl

register_validator_example :
    IsRegistered validator_keeper register
      (start_of (some rates))
      (register_validator validator_keeper register (start_of (some rates))).1
unfolding Server.register_validator
register_validator_example =
    register_validator_lem validator_keeper register (start_of (some rates)) alice_registered

alice_spent :
    bond_supply keeper {V = List Address}
        (λ v. v)
        (Server.register_validator validator_keeper register (start_of (some rates))).1.world
      + 40
    ≡ bond_supply keeper {V = List Address} (λ v. v) (start_of (some rates)).world + 0
unfolding Server.register_validator register_validator resolve_sender validate_registration_funds
    burn_from_account burn_native update_trackers ◌>>=◌ send destroy bytes_eq int_limit ◌+ℤ◌
alice_spent = refl

History-IsPaid_example :
    IsPaid validator_keeper breaker 40 1 40
      (start_of (some rates))
      (Server.register_validator validator_keeper register (start_of (some rates))).1
History-IsPaid_example =
    History-IsPaid validator_keeper breaker 7 40 (start_of (some rates)) rates (λ e. cc) refl
      (pos 40, refl, omega arith)
      (registered (start 0 0 refl refl) register alice_registered 40 alice_spent)

abbrev height : ℕ
height = 7

create_validator_gated_example :
    ((height ≢ 0)
      → (route_create_validator validator_keeper breaker height register.create_validator
            (start_of none)
          ≡ (err breaker.refusal, start_of none))
        × (precompile_create_validator validator_keeper breaker height register.create_validator
              (start_of none)
            ≡ (err (validator invalid_registration_tx), start_of none)))
    × ((height ≡ 0)
        → (route_create_validator validator_keeper breaker height register.create_validator
              (start_of none)
            ≡ on_world
                (validator_keeper.staking_msg_server.create_validator register.create_validator)
                (start_of none))
          × (precompile_create_validator validator_keeper breaker height register.create_validator
                (start_of none)
              ≡ on_world
                  (validator_keeper.staking_msg_server.create_validator register.create_validator)
                  (start_of none)))
    × ((url : String) → str_eq url create_validator_url ≡ false → is_allowed height url ≡ ok true)
create_validator_gated_example =
    create_validator_gated validator_keeper breaker height register.create_validator (start_of none)

abbrev plain_json : JsonCodec GenesisState (λ gs. gs)
plain_json = record {
  Raw = GenesisState;
  marshal = ok;
  unmarshal = ok;
  unmarshal-marshal = λ gs raw h. sym h;
}

-- ===== src/App/Blocks.antt =====
-- app/app.go, app/genesis.go: the orders in which the module manager calls the modules, and the methods that call
-- the manager.
pub mod Order
use mono_chain.Prelude.{String, List, [], ◌∷◌, ◌≡◌, Option, none, some, str_eq, if◌then◌else◌}
use mono_chain.Sdk.Outcome.{panicked, Result, ok, err, Action, lift, ◌>>=◌, ◌>>◌}
use mono_chain.Burn.Keeper as BurnModule
use mono_chain.Burn.Server.{begin_block}
use mono_chain.Sdk.Json.{JsonCodec}
use mono_chain.Burn.Types.{GenesisState, written_genesis}
use mono_chain.Burn.Module.{new_app_module, init_genesis}

-- `SetOrderPreBlockers`
unfoldable pub pre_blockers : List String
pre_blockers = "upgrade" ∷ "auth" ∷ "evm" ∷ []

-- `SetOrderBeginBlockers`
unfoldable pub begin_blockers : List String
begin_blockers =
    "epochs" ∷ "burn" ∷ "mint" ∷ "authz" ∷ "ibc" ∷ "transfer" ∷ "erc20" ∷ "feemarket" ∷ "evm"
    ∷ "distribution" ∷ "protocolpool" ∷ "slashing" ∷ "evidence" ∷ "staking" ∷ "auth" ∷ "bank"
    ∷ "gov" ∷ "genutil" ∷ "feegrant" ∷ "consensus" ∷ "vesting" ∷ []

-- `SetOrderEndBlockers`
unfoldable pub end_blockers : List String
end_blockers =
    "gov" ∷ "staking" ∷ "evm" ∷ "feemarket" ∷ "feegrant" ∷ "auth" ∷ "authz" ∷ "bank" ∷ "consensus"
    ∷ "distribution" ∷ "erc20" ∷ "evidence" ∷ "genutil" ∷ "ibc" ∷ "transfer" ∷ "mint"
    ∷ "protocolpool" ∷ "slashing" ∷ "upgrade" ∷ "vesting" ∷ []

-- `genesisModuleOrder`
unfoldable pub genesis_module_order : List String
genesis_module_order =
    "auth" ∷ "bank" ∷ "distribution" ∷ "staking" ∷ "slashing" ∷ "gov" ∷ "mint" ∷ "ibc" ∷ "evm"
    ∷ "feemarket" ∷ "erc20" ∷ "transfer" ∷ "epochs" ∷ "burn" ∷ "validator" ∷ "protocolpool"
    ∷ "genutil" ∷ "evidence" ∷ "authz" ∷ "feegrant" ∷ "upgrade" ∷ "vesting" ∷ "consensus" ∷ []

-- The module manager: it calls the handlers of the modules one after the other, in the order that
-- it was given, and stops at the first error. `run handlers order` is a whole round of calls.
pub record Manager (S : Type 0) : Type 0 where
  pub run : (String → Action S (Unit {0})) → List String → Action S (Unit {0})
  pub run_none : (h : String → Action S (Unit {0})) (s : S) → run h [] s ≡ (ok tt, s)
  pub run_first :
      (h : String → Action S (Unit {0})) (m : String) (ms : List String) (s : S)
      → (run h (m ∷ ms) s).0 ≡ ok tt
      → ((h m s).0 ≡ ok tt) × (run h (m ∷ ms) s ≡ run h ms (h m s).1)

-- `genesisState[name]`, of the genesis of the modules by their names
unfoldable pub section : {Raw : Type 0} → String → List (String × Raw) → Option Raw
section name [] = none
section name ((m, raw) ∷ g) = if str_eq name m then some raw else section name g

unfoldable pub with_section :
    {Raw : Type 0} → String → Raw → List (String × Raw) → List (String × Raw)
with_section name raw [] = (name, raw) ∷ []
with_section name raw ((m, r) ∷ g) =
    if str_eq name m then (m, raw) ∷ g else (m, r) ∷ with_section name raw g

-- The application around x/burn: the state of all modules, in which that of x/burn can be seen,
-- and the handlers of the modules. Only the handlers of x/burn are known.
pub record Modules (kb : BurnModule.Keeper) : Type 1 where
  pub State : Type 0
  pub manager : Manager State
  pub view : State → BurnModule.Ctx kb
  pub pre_block : String → Action State (Unit {0})
  pub begin : String → Action State (Unit {0})
  pub end_of_block : String → Action State (Unit {0})
  pub begin_burn :
      (s : State) → ((begin "burn" s).0, view (begin "burn" s).1) ≡ begin_block kb (view s)
  -- The JSON of the sections of genesis, as that of x/burn is read and written.
  pub burn_json : JsonCodec GenesisState written_genesis
  pub init : List (String × burn_json.Raw) → String → Action State (Unit {0})
  pub init_burn :
      (g : List (String × burn_json.Raw)) (raw : burn_json.Raw) (s : State)
      → section "burn" g ≡ some raw
      → ((init g "burn" s).0, view (init g "burn" s).1)
        ≡ init_genesis (new_app_module burn_json kb kb.address_codec) raw (view s)
  pub unmarshal : String → Result (List (String × burn_json.Raw))
  pub with_default_preinstalls : burn_json.Raw → Result burn_json.Raw
  pub set_module_version_map : Action State (Unit {0})

-- An error that the code answers by a panic.
abbrev or_panic : {S A : Type 0} → Result A × S → Result A × S
or_panic (ok a, s) = (ok a, s)
or_panic (err e, s) = (err panicked, s)

module _ {kb : BurnModule.Keeper} (a : Modules kb) where
  -- `App.PreBlocker`
  unfoldable pub pre_blocker : Action a.State (Unit {0})
  pre_blocker = a.manager.run a.pre_block pre_blockers

  -- `App.BeginBlocker`
  unfoldable pub begin_blocker : Action a.State (Unit {0})
  begin_blocker = a.manager.run a.begin begin_blockers

  -- `App.EndBlocker`
  unfoldable pub end_blocker : Action a.State (Unit {0})
  end_blocker = a.manager.run a.end_of_block end_blockers

  abbrev pub put_evm :
      List (String × a.burn_json.Raw)
      → Result a.burn_json.Raw
      → Result (List (String × a.burn_json.Raw))
  put_evm g (ok raw) = ok (with_section "evm" raw g)
  put_evm g (err e) = err panicked

  -- `App.NewEVMGenesisState`
  unfoldable pub new_evm_genesis_state :
      List (String × a.burn_json.Raw) → Result (List (String × a.burn_json.Raw))
  new_evm_genesis_state g = elim (section "evm" g) [
    | none ↦ ok g
    | some raw ↦ put_evm g (a.with_default_preinstalls raw)
  ]

  -- `App.InitChainer`
  unfoldable pub init_chainer : (app_state_bytes : String) → Action a.State (Unit {0})
  init_chainer app_state_bytes = do
    genesis_state ← λ s. or_panic (a.unmarshal app_state_bytes, s)
    with_preinstalls ← lift (new_evm_genesis_state genesis_state)
    λ s. or_panic (a.set_module_version_map s)
    a.manager.run (a.init with_preinstalls) genesis_module_order

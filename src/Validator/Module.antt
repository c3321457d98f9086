-- ===== src/Validator/Module.antt =====
-- x/validator/module.go: the genesis of the module as JSON, its services, and its operations for
-- the simulator.
use mono_chain.Prelude.{ℕ, ◌≡◌, String, List, [], ◌∷◌, arith}
use mono_chain.Sdk.Outcome.{Result, ok, on_ok, must, must-ok, Action, lift, or_panic, ◌>>=◌}
use mono_chain.Sdk.Json.{JsonCodec}
use mono_chain.Validator.Types.{
  module_name, GenesisState, default_genesis_state, Params, MsgRegisterValidator, MsgUpdateParams,
}
use mono_chain.Validator.Types
use mono_chain.Validator.Keeper.{Keeper, Ctx}
use mono_chain.Validator.Keeper
use mono_chain.Validator.Server

-- `AppModule.Name` and `AppModule.ConsensusVersion`
abbrev pub name : String
name = module_name

abbrev pub consensus_version : ℕ
consensus_version = 1

-- What `AppModule.RegisterServices` registers: the message server and the query server.
pub record Services (S : Type 0) : Type 0 where
  pub register_validator : MsgRegisterValidator → Action S (Unit {0})
  pub update_params : MsgUpdateParams → Action S (Unit {0})
  pub params : S → Result Params

-- `AppModule`; what JSON keeps of a genesis state is given by `normal`.
pub record AppModule (normal : GenesisState → GenesisState) (StakingQuerier : Type 0) : Type 1 where
  pub cdc : JsonCodec GenesisState normal
  pub keeper : Keeper
  pub staking_keeper : StakingQuerier

exported_params :
    (k : Keeper) (c : Ctx k) (out gs : GenesisState)
    → k.params.get c.params ≡ ok gs.params
    → must (Keeper.export_genesis k c) ≡ ok out
    → out ≡ gs
unfolding Keeper.export_genesis
exported_params k c out gs has written =
    let made : Keeper.export_genesis k c ≡ ok gs = ground (arith, has) in
    cc (must-ok (Keeper.export_genesis k c) written, made)

module _ {normal : GenesisState → GenesisState} {StakingQuerier : Type 0} where
  -- `NewAppModule`
  abbrev pub new_app_module :
      JsonCodec GenesisState normal → Keeper → StakingQuerier → AppModule normal StakingQuerier
  new_app_module cdc keeper sk = record { cdc = cdc; keeper = keeper; staking_keeper = sk }

  module _ (am : AppModule normal StakingQuerier) where
    open am use {cdc, keeper}

    -- `AppModule.RegisterServices`
    unfoldable pub register_services : Services (Ctx keeper)
    register_services = record {
      register_validator = Server.register_validator keeper;
      update_params = Server.update_params keeper;
      params = Server.params keeper;
    }

    -- `AppModule.DefaultGenesis`
    unfoldable pub default_genesis : Result cdc.Raw
    default_genesis = must (cdc.marshal default_genesis_state)

    -- `AppModule.ValidateGenesis`
    unfoldable pub validate_genesis : cdc.Raw → Result (Unit {0})
    validate_genesis bz = on_ok (cdc.unmarshal bz) (Types.validate_genesis keeper.math)

    -- `AppModule.InitGenesis`
    unfoldable pub init_genesis : cdc.Raw → Action (Ctx keeper) (Unit {0})
    init_genesis gs = do
      gen_state ← lift (must (cdc.unmarshal gs))
      or_panic (Keeper.init_genesis keeper gen_state)

    -- `AppModule.ExportGenesis`
    unfoldable pub export_genesis : Ctx keeper → Result cdc.Raw
    export_genesis c =
        on_ok (must (Keeper.export_genesis keeper c)) λ gen_state. must (cdc.marshal gen_state)

    -- `AppModule.WeightedOperationsX` and `AppModule.ProposalMsgsX`, over the weights of simsx and
    -- the factories of the simulator.
    module _ {Factory : Type 0} (weight : String → ℕ → ℕ) where
      abbrev pub weighted_operations :
          (msg_register_validator_factory : Keeper → StakingQuerier → Factory) → List (ℕ × Factory)
      weighted_operations factory =
          (weight "msg_register_validator" 100, factory keeper am.staking_keeper) ∷ []

      abbrev pub proposal_msgs : (msg_update_params_factory : Factory) → List (ℕ × Factory)
      proposal_msgs factory = (weight "msg_update_validator_params" 100, factory) ∷ []

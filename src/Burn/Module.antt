-- ===== src/Burn/Module.antt =====
-- x/burn/module.go: the genesis of the module as JSON, its services, and its operations for the
-- simulator.
pub mod Loading
use mono_chain.Prelude.{ℕ, Option, String, List, [], ◌∷◌, map}
use mono_chain.Sdk.Outcome.{Result, on_ok, must, Action, lift, or_panic, ◌>>=◌}
use mono_chain.Sdk.Amounts.{written_amount}
use mono_chain.Sdk.Address.{Codec}
use mono_chain.Sdk.Json.{JsonCodec}
use mono_chain.Burn.Types.{
  written_genesis, module_name, AccountBurnRecord, GenesisState, default_genesis_state, Params,
  MsgBurn, MsgUpdateParams,
}
use mono_chain.Burn.Types
use mono_chain.Burn.Keeper.{Keeper, Ctx}
use mono_chain.Burn.Genesis
use mono_chain.Burn.Server
use mono_chain.Burn.Server.{BurnStats}

-- `AppModule.Name` and `AppModule.ConsensusVersion`
abbrev pub name : String
name = module_name

abbrev pub consensus_version : ℕ
consensus_version = 1

-- What `AppModule.RegisterServices` registers: the message server and the query server.
pub record Services (S : Type 0) : Type 0 where
  pub burn : MsgBurn → Action S (Unit {0})
  pub update_params : MsgUpdateParams → Action S (Unit {0})
  pub params : S → Result Params
  pub burn_stats : S → Result BurnStats
  pub account_burns : Option String → S → Result String

-- `AppModule`
pub record AppModule : Type 1 where
  pub cdc : JsonCodec GenesisState written_genesis
  pub keeper : Keeper
  pub address_codec : Codec

-- `NewAppModule`
abbrev pub new_app_module : JsonCodec GenesisState written_genesis → Keeper → Codec → AppModule
new_app_module cdc keeper address_codec = record {
  cdc = cdc;
  keeper = keeper;
  address_codec = address_codec;
}

module _ (am : AppModule) where
  open am use {cdc, keeper}

  -- `AppModule.RegisterServices`
  unfoldable pub register_services : Services (Ctx keeper)
  register_services = record {
    burn = Server.burn keeper;
    update_params = Server.update_params keeper;
    params = Server.params keeper;
    burn_stats = Server.burn_stats keeper;
    account_burns = Server.account_burns keeper;
  }

  -- `AppModule.DefaultGenesis`
  unfoldable pub default_genesis : Result cdc.Raw
  default_genesis = must (cdc.marshal default_genesis_state)

  -- `AppModule.ValidateGenesis`
  unfoldable pub validate_genesis : cdc.Raw → Result (Unit {0})
  validate_genesis bz = on_ok (cdc.unmarshal bz) (Types.validate_genesis am.address_codec)

  -- `AppModule.InitGenesis`
  unfoldable pub init_genesis : cdc.Raw → Action (Ctx keeper) (Unit {0})
  init_genesis gs = do
    gen_state ← lift (must (cdc.unmarshal gs))
    or_panic (Genesis.init_genesis keeper gen_state)

  -- `AppModule.ExportGenesis`
  unfoldable pub export_genesis : Ctx keeper → Result cdc.Raw
  export_genesis c =
      on_ok (must (Genesis.export_genesis keeper c)) λ gen_state. must (cdc.marshal gen_state)

-- simsx: the weight of an operation, which is the given one where none is configured.
module _ {Factory : Type 0} (weight : String → ℕ → ℕ) where
  -- `AppModule.WeightedOperationsX`
  abbrev pub weighted_operations : (msg_burn_factory : Factory) → List (ℕ × Factory)
  weighted_operations msg_burn_factory = (weight "msg_burn" 100, msg_burn_factory) ∷ []

  -- `AppModule.ProposalMsgsX`
  abbrev pub proposal_msgs : (msg_update_params_factory : Factory) → List (ℕ × Factory)
  proposal_msgs msg_update_params_factory =
      (weight "msg_update_burn_params" 100, msg_update_params_factory) ∷ []

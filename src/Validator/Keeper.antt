-- ===== src/Validator/Keeper.antt =====
-- x/validator/keeper/keeper.go: `RegisterValidator` and its checks; genesis.go.
pub mod Funds
pub mod Registration
use mono_chain.Prelude.{
  ℕ, ◌≡◌, not, Bool, true, false, String, List, [], ◌∷◌, ◌++◌, str_eq, bytes_eq, if◌then◌else◌,
}
use mono_chain.Sdk.Outcome.{
  registration_address_mismatch, burn_denom_mismatch, burn_below_required,
  delegation_denom_mismatch, min_self_delegation_below_required, params_read, validator, Error,
  Result, ok, err, Action, pure, lift, ◌>>=◌, ◌>>◌,
}
use mono_chain.Sdk.Amounts.{MathInt, int, int_lt, Coin, Math}
use mono_chain.Sdk.Collections.{Item}
use mono_chain.Sdk.Address.{Address, Codec}
use mono_chain.Validator.Types.{
  written_params, Params, MsgRegisterValidator, MsgCreateValidator, GenesisState, BurnKeeper,
  StakingMsgServer,
}

-- What `NewKeeper` is given, and the collection that it builds. `World` is the state of the other
-- modules, which burns and stakes.
pub record Keeper : Type 1 where
  pub World : Type 0
  pub supply : World → ℕ
  pub validators : World → List Address
  pub address_codec : Codec
  pub validator_address_codec : Codec
  pub authority : String
  pub burn_keeper : BurnKeeper World supply validators
  pub staking_msg_server :
      StakingMsgServer World supply validators validator_address_codec.string_to_bytes
  pub params : Item Params written_params
  pub math : Math

module _ (k : Keeper) where
  pub record Ctx : Type 0 where
    pub params : k.params.State
    pub world : k.World
    pub events : List String

module _ {k : Keeper} where
  abbrev pub on_params : {A : Type 0} → Action k.params.State A → Action (Ctx k) A
  on_params m c = let (r, s) = m c.params in (r, record c { params = s })

  abbrev pub on_world : {A : Type 0} → Action k.World A → Action (Ctx k) A
  on_world m c = let (r, s) = m c.world in (r, record c { world = s })

  abbrev pub emit : String → Action (Ctx k) (Unit {0})
  emit e c = (ok tt, record c { events = c.events ++ (e ∷ []) })

-- `amount.IsNil() || amount.LT(required)`
abbrev pub is_below : MathInt → MathInt → Result Bool
is_below MathInt.nil required = ok true
is_below (int a) required = int_lt (int a) required

-- `if cond { return e }` where the condition itself may panic.
abbrev pub refuse_if : Result Bool → Error → Result (Unit {0}) → Result (Unit {0})
refuse_if (err p) e rest = err p
refuse_if (ok true) e rest = err e
refuse_if (ok false) e rest = rest

-- `Keeper.validateRegistrationFunds`
unfoldable pub validate_registration_funds : MsgRegisterValidator → Params → Result (Unit {0})
validate_registration_funds msg params =
    let required = params.validator_registration_burn in
    let min_self = params.validator_min_self_delegation in
    let create = msg.create_validator in
    refuse_if (ok (not (str_eq msg.burn.denom required.denom))) (validator burn_denom_mismatch) (
      refuse_if (is_below msg.burn.amount required.amount) (validator burn_below_required) (
        refuse_if (ok (not (str_eq create.value.denom min_self.denom)))
          (validator delegation_denom_mismatch)
          (refuse_if (is_below create.value.amount min_self.amount)
            (validator min_self_delegation_below_required)
            (refuse_if (is_below create.min_self_delegation min_self.amount)
              (validator min_self_delegation_below_required) (ok tt)))))

module _ (k : Keeper) where
  -- `Keeper.GetAuthority`
  unfoldable pub get_authority : String
  get_authority = k.authority

  -- `Keeper.resolveSender`
  unfoldable pub resolve_sender : MsgRegisterValidator → Result Address
  resolve_sender msg = elim (k.address_codec.string_to_bytes msg.sender) [
    | err e ↦ err e
    | ok sender ↦
        elim (k.validator_address_codec.string_to_bytes msg.create_validator.validator_address) [
          | err e ↦ err e
          | ok operator ↦
              if bytes_eq sender operator
              then ok sender
              else err (validator registration_address_mismatch)
        ]
  ]

  -- `k.Params.Get(ctx)`, any error of which becomes ErrParamsRead
  abbrev pub read_params : Result Params → Result Params
  read_params (ok p) = ok p
  read_params (err e) = err (validator params_read)

  -- `Keeper.RegisterValidator`
  unfoldable pub register_validator : MsgRegisterValidator → Action (Ctx k) (Unit {0})
  register_validator msg = do
    params ← λ c. (read_params (k.params.get c.params), c)
    sender ← lift (resolve_sender msg)
    lift (validate_registration_funds msg params)
    on_world (k.burn_keeper.burn_from_account sender msg.burn)
    on_world (k.staking_msg_server.create_validator msg.create_validator)
    emit "register_validator"

  -- `Keeper.InitGenesis`
  unfoldable pub init_genesis : GenesisState → Action (Ctx k) (Unit {0})
  init_genesis gs = on_params (k.params.set gs.params)

  -- `Keeper.ExportGenesis`
  unfoldable pub export_genesis : Ctx k → Result GenesisState
  export_genesis c = elim (k.params.get c.params) [
    | err e ↦ err e
    | ok params ↦ ok (record { params = params })
  ]

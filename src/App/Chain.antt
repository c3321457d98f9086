-- ===== src/App/Chain.antt =====
-- app/app.go: x/burn and x/validator in one application, over the same bank, with the message server
-- of x/staking behind x/validator; and what happens to both on a chain.
pub mod Registered
pub mod Refines
pub mod Paid
pub mod Joins
use mono_chain.Prelude.{ℕ, suc, ◌≤◌, ◌≡◌, refl, List, ◌∷◌, length}
use mono_chain.Prelude.Int.{ℤ, pos, ◌+ℤ◌}
use mono_chain.Sdk.Outcome.{Result, ok, Action}
use mono_chain.Sdk.Collections.{Item}
use mono_chain.Sdk.Address.{Address, Codec}
use mono_chain.Burn.Types.{MsgBurn, MsgUpdateParams, default_bond_denom}
use mono_chain.Burn.Keeper as Burns
use mono_chain.Burn.Server as BurnServer
use mono_chain.Validator.Types.{
  Params, written_params, MsgCreateValidator, MsgRegisterValidator, StakingMsgServer,
}
use mono_chain.Validator.Types as Validators
use mono_chain.Validator.Keeper.{Keeper, Ctx, on_world}
use mono_chain.Validator.Server as ValidatorServer
use mono_chain.Validator.Gate.{Router, route_create_validator, precompile_create_validator}
use mono_chain.Validator.History.{AsksFor}
use mono_chain.Validator.Wiring.{World, bond_supply, operators, app_burn_keeper}

-- x/staking over its own state `V` and that of the bank, and the store of x/validator.
pub record Staking (kb : Burns.Keeper) : Type 1 where
  pub V : Type 0
  pub validators : V → List Address
  pub validator_address_codec : Codec
  pub create_validator : MsgCreateValidator → Action (kb.bank.State × V) (Unit {0})
  pub creates :
      (msg : MsgCreateValidator) (s : kb.bank.State × V)
      → (create_validator msg s).0 ≡ ok tt
      → (a : Address) × (validator_address_codec.string_to_bytes msg.validator_address ≡ ok a)
        × (validators (create_validator msg s).1.1 ≡ a ∷ validators s.1)
        × (kb.bank.supply default_bond_denom (create_validator msg s).1.0
            ≡ kb.bank.supply default_bond_denom s.0)
  pub params : Item Params written_params

module _ (kb : Burns.Keeper) (st : Staking kb) where
  -- The message server of x/staking in the whole application.
  abbrev pub staking_in_world : MsgCreateValidator → Action (World kb st.validators) (Unit {0})
  staking_in_world msg w =
      let (r, s) = st.create_validator msg (w.0.bank, w.1) in
      (r, (record (w.0) { bank = s.0 }, s.1))

  abbrev pub validator_staking_msg_server :
      StakingMsgServer
        (World kb st.validators)
        (bond_supply kb st.validators)
        (operators kb st.validators)
        st.validator_address_codec.string_to_bytes
  validator_staking_msg_server = record {
    create_validator = staking_in_world;
    creates = λ msg w done. st.creates msg (w.0.bank, w.1) done;
  }

  -- `app.ValidatorKeeper`: the address of x/gov is the authority of both keepers.
  abbrev pub app_validator_keeper : Keeper
  app_validator_keeper = record {
    World = World kb st.validators;
    supply = bond_supply kb st.validators;
    validators = operators kb st.validators;
    address_codec = kb.address_codec;
    validator_address_codec = st.validator_address_codec;
    authority = kb.authority;
    burn_keeper = app_burn_keeper kb st.validators;
    staking_msg_server = validator_staking_msg_server;
    params = st.params;
    math = kb.math;
  }

  abbrev pub AppCtx : Type 0
  AppCtx = Ctx app_validator_keeper

  -- A method of x/burn in the whole application.
  abbrev pub on_burn : {A : Type 0} → Action (Burns.Ctx kb) A → Action AppCtx A
  on_burn m = on_world (λ w. let (r, c) = m w.0 in (r, (c, w.1)))

  -- What happened in the application from `c` on, after genesis: `n` validators have registered, and
  -- modules but x/burn minted and burned the bond denomination, `z` all in all. Only x/burn and
  -- x/validator write to their stores; other modules drop validators at most, and the parameters
  -- of x/validator keep asking for a burn of `floor` at least.
  module _ (router : Router AppCtx) (height floor : ℕ) where
    pub data Run (c : AppCtx) : (n : ℕ) (z : ℤ) → AppCtx → Type 0 where
      genesis : (n : ℕ) (z : ℤ) → n ≡ 0 → z ≡ pos 0 → Run c n z c
      burned :
          {n : ℕ} {z : ℤ} {c1 : AppCtx}
          → Run c n z c1
          → (msg : MsgBurn) → (on_burn (BurnServer.burn kb msg) c1).0 ≡ ok tt
          → Run c n z (on_burn (BurnServer.burn kb msg) c1).1
      began :
          {n : ℕ} {z : ℤ} {c1 : AppCtx}
          → Run c n z c1
          → (on_burn (BurnServer.begin_block kb) c1).0 ≡ ok tt
          → Run c n z (on_burn (BurnServer.begin_block kb) c1).1
      burn_updated :
          {n : ℕ} {z : ℤ} {c1 : AppCtx}
          → Run c n z c1
          → (msg : MsgUpdateParams) → (on_burn (BurnServer.update_params kb msg) c1).0 ≡ ok tt
          → Run c n z (on_burn (BurnServer.update_params kb msg) c1).1
      registered :
          {n : ℕ} {z : ℤ} {c1 : AppCtx}
          → Run c n z c1
          → (msg : MsgRegisterValidator)
          → (ValidatorServer.register_validator app_validator_keeper msg c1).0 ≡ ok tt
          → Run c (suc n) z (ValidatorServer.register_validator app_validator_keeper msg c1).1
      routed :
          {n : ℕ} {z : ℤ} {c1 : AppCtx}
          → Run c n z c1
          → (msg : MsgCreateValidator)
          → (route_create_validator app_validator_keeper router height msg c1).0 ≡ ok tt
          → Run c n z (route_create_validator app_validator_keeper router height msg c1).1
      precompiled :
          {n : ℕ} {z : ℤ} {c1 : AppCtx}
          → Run c n z c1
          → (msg : MsgCreateValidator)
          → (precompile_create_validator app_validator_keeper router height msg c1).0 ≡ ok tt
          → Run c n z (precompile_create_validator app_validator_keeper router height msg c1).1
      validator_updated :
          {n : ℕ} {z : ℤ} {c1 : AppCtx}
          → Run c n z c1
          → (msg : Validators.MsgUpdateParams)
          → (ValidatorServer.update_params app_validator_keeper msg c1).0 ≡ ok tt
          → AsksFor app_validator_keeper router floor msg.params
          → Run c n z (ValidatorServer.update_params app_validator_keeper msg c1).1
      other :
          {n : ℕ} {z : ℤ} {c1 : AppCtx}
          → Run c n z c1
          → (s : kb.bank.State) (v : st.V) (z' : ℤ)
          → pos (kb.bank.supply default_bond_denom s) +ℤ z
            ≡ pos (kb.bank.supply default_bond_denom c1.world.0.bank) +ℤ z'
          → length (st.validators v) ≤ length (st.validators c1.world.1)
          → Run c n z' (record c1 { world = (record (c1.world.0) { bank = s }, v) })

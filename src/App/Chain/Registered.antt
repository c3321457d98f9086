-- ===== src/App/Chain/Registered.antt =====
-- What a registration does to x/burn in the application: one burn, and a move of coins in the bank.
use mono_chain.Prelude.{◌≡◌, ap}
use mono_chain.Sdk.Outcome.{ok}
use mono_chain.Sdk.Address.{Address}
use mono_chain.Burn.Types.{default_bond_denom}
use mono_chain.Burn.Keeper as Burns
use mono_chain.Burn.Keeper.{burn_from_account}
use mono_chain.Validator.Types.{MsgRegisterValidator}
use mono_chain.Validator.Keeper.Registration.{register_validator_lem}
use mono_chain.Validator.Server as ValidatorServer
use mono_chain.App.Chain.{Staking, AppCtx, app_validator_keeper}

module _ (kb : Burns.Keeper) (st : Staking kb) where
  pub record IsCharged (msg : MsgRegisterValidator) (c c' : AppCtx kb st) : Type 0 where
    pub payer : Address
    pub charged : (burn_from_account kb payer msg.burn c.world.0).0 ≡ ok tt
    pub bank : kb.bank.State
    pub same_supply :
        kb.bank.supply default_bond_denom bank
        ≡ kb.bank.supply default_bond_denom (burn_from_account kb payer msg.burn c.world.0).1.bank
    pub left :
        c'.world.0 ≡ record ((burn_from_account kb payer msg.burn c.world.0).1) { bank = bank }

  pub register_validator-IsCharged :
      (msg : MsgRegisterValidator) (c : AppCtx kb st)
      → (ValidatorServer.register_validator (app_validator_keeper kb st) msg c).0 ≡ ok tt
      → IsCharged msg c (ValidatorServer.register_validator (app_validator_keeper kb st) msg c).1
  unfolding ValidatorServer.register_validator
  register_validator-IsCharged msg c done =
      let g = register_validator_lem (app_validator_keeper kb st) msg c done in
      let burnt = (burn_from_account kb g.operator msg.burn c.world.0).1 in
      let (a, decoded, added, kept) =
        st.creates msg.create_validator (burnt.bank, c.world.1) g.create_done in
      record {
        payer = g.operator;
        charged = g.burn_done;
        bank = (st.create_validator msg.create_validator (burnt.bank, c.world.1)).1.0;
        same_supply = kept;
        left = ap (λ w. w.0) g.world;
      }

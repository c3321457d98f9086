-- ===== src/App/Chain/Joins.antt =====
-- When a registration goes through in the application.
use mono_chain.Prelude.{ℕ, ◌≤◌, ◌<◌, ◌≡◌, ◌≢◌, refl, ap, ◌∙◌}
use mono_chain.Prelude.Int.{ℤ, pos, ◌+ℤ◌}
use mono_chain.Sdk.Outcome.{ok, >>=-eq-ok}
use mono_chain.Sdk.Amounts.{int_limit}
use mono_chain.Sdk.Address.{Address}
use mono_chain.Burn.Types.{module_name, default_bond_denom}
use mono_chain.Burn.Keeper as Burns
use mono_chain.Burn.Keeper.Fees.{alyth}
use mono_chain.Burn.Growth.{IsSound}
use mono_chain.Burn.Serves.{AccountsAreAmounts, Answers, Reach-charges}
use mono_chain.Validator.Types.{Params, MsgRegisterValidator}
use mono_chain.Validator.Keeper.{resolve_sender, validate_registration_funds, register_validator}
use mono_chain.Validator.Keeper.Registration.{IsRegistered, register_validator_lem}
use mono_chain.Validator.Gate.{Router}
use mono_chain.Validator.Server as ValidatorServer
use mono_chain.Validator.Wiring.{burn_in_world}
use mono_chain.App.Chain.{Staking, AppCtx, app_validator_keeper, staking_in_world, Run}
use mono_chain.App.Chain.Refines.{Run-refines}

module _ (kb : Burns.Keeper) (st : Staking kb) where
  -- The steps of `RegisterValidator`, one after the other.
  register_validator-ok :
      (c : AppCtx kb st) (msg : MsgRegisterValidator) (rates : Params) (a : Address)
      → st.params.get c.params ≡ ok rates
      → resolve_sender (app_validator_keeper kb st) msg ≡ ok a
      → validate_registration_funds msg rates ≡ ok tt
      → (burn_in_world kb st.validators a msg.burn c.world).0 ≡ ok tt
      → (staking_in_world kb st msg.create_validator
          (burn_in_world kb st.validators a msg.burn c.world).1).0
        ≡ ok tt
      → (ValidatorServer.register_validator (app_validator_keeper kb st) msg c).0 ≡ ok tt
  unfolding ValidatorServer.register_validator register_validator
  register_validator-ok c msg rates a has resolved funds burnt made =
      >>=-eq-ok _ _ _ rates (rw has) (
        >>=-eq-ok _ _ _ a resolved
          (>>=-eq-ok _ _ _ tt funds (>>=-eq-ok _ _ _ tt burnt (>>=-eq-ok _ _ _ tt made refl))))

  -- A run of the application after genesis, from a state in which the invariant of x/burn holds and the
  -- totals of accounts are amounts: a registration by the operator itself that passes the checks, and
  -- burns alyth that its sender may send and that the supply covers, returns no error and registers,
  -- as long as x/staking makes the validator after the burn, what was there at first and what other
  -- modules minted less what they burned fits into 256 bits together, the module account of x/burn
  -- exists and may burn, and the collections of x/burn answer and take every write.
  pub Run-joins :
      (router : Router (AppCtx kb st)) (height floor : ℕ) (base : ℤ) (b : ℕ) {c : AppCtx kb st}
      {n : ℕ} {z : ℤ} {c' : AppCtx kb st} (msg : MsgRegisterValidator) (rates : Params)
      (a : Address) (x : ℕ)
      → height ≢ 0
      → IsSound kb base c.world.0
      → AccountsAreAmounts kb c.world.0
      → Run kb st router height floor c n z c'
      → base +ℤ z ≡ pos b
      → b < int_limit
      → Answers kb a c'.world.0
      → st.params.get c'.params ≡ ok rates
      → resolve_sender (app_validator_keeper kb st) msg ≡ ok a
      → validate_registration_funds msg rates ≡ ok tt
      → msg.burn ≡ alyth x
      → kb.bank.registered module_name c'.world.0.bank
      → kb.bank.burner module_name c'.world.0.bank
      → x ≤ kb.bank.spendable a default_bond_denom c'.world.0.bank
      → x ≤ kb.bank.supply default_bond_denom c'.world.0.bank
      → (staking_in_world kb st msg.create_validator
          (burn_in_world kb st.validators a msg.burn c'.world).1).0
        ≡ ok tt
      → let after = ValidatorServer.register_validator (app_validator_keeper kb st) msg c' in
        (after.0 ≡ ok tt) × IsRegistered (app_validator_keeper kb st) msg c' after.1
  unfolding ValidatorServer.register_validator
  Run-joins router height floor base b {c' = c'} msg rates a x later s p r is_b small answers has
        resolved funds is_x known may_burn held backed made =
      let reached = (Run-refines kb st router height floor later r).0 in
      let charged =
        Reach-charges kb base b a x s p reached is_b small answers known may_burn held backed in
      let burnt : (burn_in_world kb st.validators a msg.burn c'.world).0 ≡ ok tt =
        ap (λ coin. (burn_in_world kb st.validators a coin c'.world).0) is_x ∙ charged in
      let done = register_validator-ok c' msg rates a has resolved funds burnt made in
      (done, register_validator_lem (app_validator_keeper kb st) msg c' done)

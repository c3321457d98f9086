-- ===== src/App/Chain/Refines.antt =====
-- A run of the application, as each of the two modules sees it.
use mono_chain.Prelude.{ℕ, ◌+◌, ◌≢◌, refl, sym, ap, subst, arith}
use mono_chain.Prelude.Int.{ℤ, pos, ◌+ℤ◌}
use mono_chain.Sdk.Outcome.{Ensures-ok}
use mono_chain.Burn.Keeper as Burns
use mono_chain.Burn.Chain.{Reach, here, next, moved, burned, updated, began, charged}
use mono_chain.Validator.Keeper.Registration.{register_validator_lem}
use mono_chain.Validator.Gate.{Router, create_validator_gated}
use mono_chain.Validator.History as Validators
use mono_chain.Validator.History.{History}
use mono_chain.App.Chain.{Staking, AppCtx, app_validator_keeper, Run}
use mono_chain.Validator.Server as ValidatorServer
use mono_chain.App.Chain as Chain
use mono_chain.App.Chain.Registered.{register_validator-IsCharged}

module _ (kb : Burns.Keeper) (st : Staking kb) (router : Router (AppCtx kb st))
    (height floor : ℕ) where
  Run-Reach :
      {c : AppCtx kb st} {n : ℕ} {z : ℤ} {c' : AppCtx kb st}
      → height ≢ 0
      → Run kb st router height floor c n z c'
      → Reach kb c.world.0 z c'.world.0
  Run-Reach later (Chain.genesis n z none same) = here z same
  Run-Reach later (Chain.burned r msg done) = next (Run-Reach later r) (burned msg done)
  Run-Reach later (Chain.began r done) = next (Run-Reach later r) (began done)
  Run-Reach later (Chain.burn_updated r msg done) = next (Run-Reach later r) (updated msg done)
  Run-Reach {c} later (Chain.registered {z = z} {c1 = c1} r msg done) =
      let g = register_validator-IsCharged kb st msg c1 done in
      let paid = next (Run-Reach later r) (charged g.payer msg.burn g.charged) in
      subst (λ s. Reach kb c.world.0 z s) (sym g.left)
        (moved paid g.bank z (ap (λ (x : ℕ). pos x +ℤ z) g.same_supply))
  Run-Reach later (Chain.routed {c1 = c1} r msg done) =
      absurd (cc ((create_validator_gated _ router height msg c1).0 later).0)
  Run-Reach later (Chain.precompiled {c1 = c1} r msg done) =
      absurd (cc ((create_validator_gated _ router height msg c1).0 later).1)
  Run-Reach {c} later (Chain.validator_updated {z = z} {c1 = c1} r msg done asks) =
      let (stored, same) =
        Ensures-ok _ _ (Validators.updated_params (app_validator_keeper kb st) router msg c1)
          done in
      subst (λ (s : Burns.Ctx kb). Reach kb c.world.0 z s) (sym (ap (λ w. w.0) same))
        (Run-Reach later r)
  Run-Reach later (Chain.other r s v z' changed fewer) = moved (Run-Reach later r) s z' changed

  Run-History :
      {c : AppCtx kb st} {n : ℕ} {z : ℤ} {c' : AppCtx kb st}
      → Run kb st router height floor c n z c'
      → (b : ℕ) × History (app_validator_keeper kb st) router height floor c n b c'
  unfolding ValidatorServer.register_validator
  Run-History (Chain.genesis n z none same) = (0, Validators.start n 0 none refl)
  Run-History (Chain.burned {c1 = c1} r msg done) =
      let (b, h) = Run-History r in (b, Validators.other h _ (omega arith))
  Run-History (Chain.began r done) =
      let (b, h) = Run-History r in (b, Validators.other h _ (omega arith))
  Run-History (Chain.burn_updated r msg done) =
      let (b, h) = Run-History r in (b, Validators.other h _ (omega arith))
  Run-History (Chain.registered {c1 = c1} r msg done) =
      let (b, h) = Run-History r in
      let g = register_validator_lem (app_validator_keeper kb st) msg c1 done in
      (b + g.burned, Validators.registered h msg done (b + g.burned) (omega (arith, g.supply)))
  Run-History (Chain.routed r msg done) =
      let (b, h) = Run-History r in (b, Validators.routed h msg done)
  Run-History (Chain.precompiled r msg done) =
      let (b, h) = Run-History r in (b, Validators.precompiled h msg done)
  Run-History (Chain.validator_updated r msg done asks) =
      let (b, h) = Run-History r in (b, Validators.updated h msg done asks)
  Run-History (Chain.other r s v z' changed fewer) =
      let (b, h) = Run-History r in (b, Validators.other h _ fewer)

  -- A run after genesis is, for x/burn, a sequence of its own steps and of moves in the bank that
  -- mint and burn what the other modules do; for x/validator it is a history with as many
  -- registrations.
  pub Run-refines :
      {c : AppCtx kb st} {n : ℕ} {z : ℤ} {c' : AppCtx kb st}
      → height ≢ 0
      → Run kb st router height floor c n z c'
      → Reach kb c.world.0 z c'.world.0
        × ((b : ℕ) × History (app_validator_keeper kb st) router height floor c n b c')
  Run-refines later r = (Run-Reach later r, Run-History r)

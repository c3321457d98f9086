-- ===== src/App/Chain/Paid.antt =====
-- What x/burn has recorded of the registrations in the application.
use mono_chain.Prelude.{ℕ, suc, ◌+◌, ◌*◌, ◌≤◌, ◌≡◌, ◌≢◌, sym, ap, subst, ◌∙◌, length}
use mono_chain.Prelude.Int.{ℤ, pos, ◌+ℤ◌, ◌≤ℤ◌, pos_part, neg_part, int_laws}
use mono_chain.Sdk.Outcome.{ok, Ensures-ok}
use mono_chain.Burn.Keeper as Burns
use mono_chain.Burn.Growth.{IsSound}
use mono_chain.Burn.Chain.{
  Step, burned, updated, began, Step-Adds, charged_adds, moved_adds, unmoved_adds,
}
use mono_chain.Validator.Types.{Params, MsgRegisterValidator}
use mono_chain.Validator.Keeper.Registration.{register_validator_lem}
use mono_chain.Validator.Gate.{Router, create_validator_gated}
use mono_chain.Validator.History as Validators
use mono_chain.Validator.History.{AsksFor, IsPaid, History-IsPaid}
use mono_chain.Validator.Server as ValidatorServer
use mono_chain.App.Chain.{Staking, AppCtx, app_validator_keeper, Run}
use mono_chain.App.Chain as Chain
use mono_chain.App.Chain.Registered.{register_validator-IsCharged}
use mono_chain.App.Chain.Refines.{Run-refines}

-- `low` is below a total that grows.
still_below : (low t t' : ℤ) (m : ℕ) → t' ≡ t +ℤ pos m → low ≤ℤ t → low ≤ℤ t'
still_below low t t' m e h = omega (int_laws, ap pos_part e, ap neg_part e)

none_more : (t t' : ℤ) (floor n : ℕ) → n ≡ 0 → t' ≡ t → t +ℤ pos (floor * n) ≤ℤ t'
none_more t t' floor n none e = rw (none, e) (omega int_laws)

below_more :
    (t0 t t' : ℤ) (floor n m : ℕ)
    → t' ≡ t +ℤ pos m
    → floor ≤ m
    → t0 +ℤ pos (floor * n) ≤ℤ t
    → t0 +ℤ pos (floor * suc n) ≤ℤ t'
below_more t0 t t' floor n m e reach h = omega (int_laws, ap pos_part e, ap neg_part e)

module _ (kb : Burns.Keeper) (st : Staking kb) (router : Router (AppCtx kb st)) (height floor : ℕ)
    (base : ℤ) (c : AppCtx kb st) (s0 : IsSound kb base c.world.0) where
  -- The invariant of x/burn, with a total that grew by `floor` for each of `n` registrations.
  abbrev Records : (n : ℕ) (z : ℤ) → Burns.Ctx kb → Type 0
  Records n z b = (s : IsSound kb (base +ℤ z) b) × (s0.total +ℤ pos (floor * n) ≤ℤ s.total)

  -- Steps of x/burn, and moves in the bank, keep that.
  Records-Step :
      (n : ℕ) (z : ℤ) {b b' : Burns.Ctx kb} → Step kb b b' → Records n z b → Records n z b'
  Records-Step n z st (s, low) =
      let (m, s', grown, keeps) = Step-Adds kb (base +ℤ z) st s in
      (s', still_below _ s.total s'.total m grown low)

  module _ (rates : Params) (later : height ≢ 0) (has : st.params.get c.params ≡ ok rates)
      (asks : AsksFor (app_validator_keeper kb st) router floor rates) where
    -- What the history of x/validator says of a run.
    prefix-IsPaid :
        {n : ℕ} {z : ℤ} {c' : AppCtx kb st}
        → Run kb st router height floor c n z c'
        → (b : ℕ) × IsPaid (app_validator_keeper kb st) router floor n b c c'
    prefix-IsPaid r =
        let (b, h) = (Run-refines kb st router height floor later r).1 in
        (
          b,
          History-IsPaid (app_validator_keeper kb st) router height floor c rates later has asks h,
        )

    after_registration :
        (n : ℕ) (z : ℤ) (c1 : AppCtx kb st) (msg : MsgRegisterValidator)
        → Run kb st router height floor c n z c1
        → (ValidatorServer.register_validator (app_validator_keeper kb st) msg c1).0 ≡ ok tt
        → Records n z c1.world.0
        → Records
            (suc n)
            z
            (ValidatorServer.register_validator (app_validator_keeper kb st) msg c1).1.world.0
    unfolding ValidatorServer.register_validator
    after_registration n z c1 msg r done (s, low) =
        let (b, p) = prefix-IsPaid r in
        let i = register_validator_lem (app_validator_keeper kb st) msg c1 done in
        let g = register_validator-IsCharged kb st msg c1 done in
        let reach : floor ≤ i.burned =
          Validators.burn_reaches (app_validator_keeper kb st) router msg floor c1 _ p.rates i
            p.has_rates p.asks in
        let (m, is_m, s1, grown) =
          charged_adds kb (base +ℤ z) g.payer msg.burn c1.world.0 g.charged s in
        let same : i.burned ≡ m = cc (i.is_burned, is_m) in
        let (s2, kept) =
          moved_adds kb base z z _ g.bank (ap (λ (x : ℕ). pos x +ℤ z) g.same_supply) s1 in
        subst (λ x. Records (suc n) z x) (sym g.left)
          (s2, below_more s0.total s.total s2.total floor n m (kept ∙ grown) (rw same at reach) low)

    Run-Records :
        {n : ℕ} {z : ℤ} {c' : AppCtx kb st}
        → Run kb st router height floor c n z c'
        → Records n z c'.world.0
    Run-Records (Chain.genesis n z none same) =
        let (s', kept) = unmoved_adds kb base z c.world.0 same s0 in
        (s', none_more s0.total s'.total floor n none kept)
    Run-Records (Chain.burned {n} {z} r msg done) =
        Records-Step n z (burned msg done) (Run-Records r)
    Run-Records (Chain.began {n} {z} r done) = Records-Step n z (began done) (Run-Records r)
    Run-Records (Chain.burn_updated {n} {z} r msg done) =
        Records-Step n z (updated msg done) (Run-Records r)
    Run-Records (Chain.registered {n} {z} {c1} r msg done) =
        after_registration n z c1 msg r done (Run-Records r)
    Run-Records (Chain.routed {c1 = c1} r msg done) =
        absurd (cc ((create_validator_gated _ router height msg c1).0 later).0)
    Run-Records (Chain.precompiled {c1 = c1} r msg done) =
        absurd (cc ((create_validator_gated _ router height msg c1).0 later).1)
    Run-Records (Chain.validator_updated {n} {z} {c1} r msg done asks') =
        let (stored, same) =
          Ensures-ok _ _ (Validators.updated_params (app_validator_keeper kb st) router msg c1)
            done in
        subst (λ x. Records n z x) (sym (ap (λ w. w.0) same)) (Run-Records r)
    Run-Records (Chain.other {n} {z} {c1} r s v z' changed fewer) =
        let (s1, low) = Run-Records r in
        let (s2, kept) = moved_adds kb base z z' c1.world.0 s changed s1 in
        (s2, subst (λ t. s0.total +ℤ pos (floor * n) ≤ℤ t) (sym kept) low)

    -- A run after genesis, from a state in which the invariant of x/burn holds and the parameters of
    -- x/validator ask for a burn of `floor` at least, keeps the invariant; its global total has grown
    -- by `floor` for each of the `n` registrations at least, and the validators by `n` at most.
    pub Run-IsPaid :
        {n : ℕ} {z : ℤ} {c' : AppCtx kb st}
        → Run kb st router height floor c n z c'
        → (s : IsSound kb (base +ℤ z) c'.world.0) × (s0.total +ℤ pos (floor * n) ≤ℤ s.total)
          × (length (st.validators c'.world.1) ≤ length (st.validators c.world.1) + n)
    Run-IsPaid r = let (s, low) = Run-Records r in let (b, p) = prefix-IsPaid r in (s, low, p.count)

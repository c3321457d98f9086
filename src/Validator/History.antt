-- ===== src/Validator/History.antt =====
-- The validator set over the life of a chain after genesis: who is in it, and what that cost.
use mono_chain.Prelude.{ℕ, suc, ◌+◌, ◌*◌, ◌≤◌, ◌≡◌, ◌≢◌, refl, sym, ap, ◌∙◌, length, arith}
use mono_chain.Prelude.Int.{ℤ, pos, ◌≤ℤ◌}
use mono_chain.Sdk.Outcome.{ok, Ensures, >>=-Ensures, Ensures-of, Ensures-ok}
use mono_chain.Sdk.Amounts.{int}
use mono_chain.Validator.Types.{
  Params, written_params-valid, MsgCreateValidator, MsgRegisterValidator, MsgUpdateParams,
}
use mono_chain.Validator.Keeper.{Keeper, Ctx, on_params}
use mono_chain.Validator.Keeper.Registration.{IsRegistered, register_validator_lem}
use mono_chain.Validator.Gate.{
  Router, route_create_validator, precompile_create_validator, create_validator_gated,
}
use mono_chain.Validator.Server

added_up :
    (floor n b b' x s s' : ℕ)
    → floor * n ≤ b
    → floor ≤ x
    → s' + x ≡ s
    → s' + b' ≡ s + b
    → floor * suc n ≤ b'
added_up floor n b b' x s s' paid reach gone spent = omega arith

module _ (k : Keeper) (router : Router (Ctx k)) where
  -- The parameters ask for a burn of `floor` at least.
  abbrev pub AsksFor : ℕ → Params → Type 0
  AsksFor floor p = (r : ℤ) × (p.validator_registration_burn.amount ≡ int r) × (pos floor ≤ℤ r)

  -- What happened from `c` on, after genesis: `n` registrations, which burned `b` together. Other
  -- modules may change their state and drop validators; the parameters keep asking for `floor`.
  pub data History (height floor : ℕ) (c : Ctx k) : (n b : ℕ) → Ctx k → Type 0 where
    start : (n b : ℕ) → n ≡ 0 → b ≡ 0 → History height floor c n b c
    registered :
        {n b : ℕ} {c1 : Ctx k}
        → History height floor c n b c1
        → (msg : MsgRegisterValidator) → (Server.register_validator k msg c1).0 ≡ ok tt
        → (b' : ℕ)
        → k.supply (Server.register_validator k msg c1).1.world + b' ≡ k.supply c1.world + b
        → History height floor c (suc n) b' (Server.register_validator k msg c1).1
    routed :
        {n b : ℕ} {c1 : Ctx k}
        → History height floor c n b c1
        → (msg : MsgCreateValidator) → (route_create_validator k router height msg c1).0 ≡ ok tt
        → History height floor c n b (route_create_validator k router height msg c1).1
    precompiled :
        {n b : ℕ} {c1 : Ctx k}
        → History height floor c n b c1
        → (msg : MsgCreateValidator)
        → (precompile_create_validator k router height msg c1).0 ≡ ok tt
        → History height floor c n b (precompile_create_validator k router height msg c1).1
    updated :
        {n b : ℕ} {c1 : Ctx k}
        → History height floor c n b c1
        → (msg : MsgUpdateParams) → (Server.update_params k msg c1).0 ≡ ok tt
        → AsksFor floor msg.params
        → History height floor c n b (Server.update_params k msg c1).1
    other :
        {n b : ℕ} {c1 : Ctx k}
        → History height floor c n b c1
        → (w : k.World) → length (k.validators w) ≤ length (k.validators c1.world)
        → History height floor c n b (record c1 { world = w })

  -- The stored parameters ask for `floor`; the set has at most one validator more for each
  -- registration, and each of those has burned `floor` at least.
  pub record IsPaid (floor n b : ℕ) (c c' : Ctx k) : Type 0 where
    pub rates : Params
    pub has_rates : k.params.get c'.params ≡ ok rates
    pub asks : AsksFor floor rates
    pub count : length (k.validators c'.world) ≤ length (k.validators c.world) + n
    pub paid : floor * n ≤ b

  pub burn_reaches :
      (msg : MsgRegisterValidator) (floor : ℕ) (c c' : Ctx k) (rates : Params)
      (i : IsRegistered k msg c c')
      → k.params.get c.params ≡ ok rates
      → AsksFor floor rates
      → floor ≤ i.burned
  burn_reaches msg floor c c' rates i has (r, is_r, low) =
      let (a, q, is_a, is_q, high) = i.funds.burn_amount in
      let same_rates : rates ≡ i.rates = cc (has, i.has_rates) in
      let same_q : int r ≡ int q =
        sym is_r ∙ ap (λ (p : Params). p.validator_registration_burn.amount) same_rates ∙ is_q in
      let same_a : int a ≡ int (pos i.burned) = sym is_a ∙ i.is_burned in ground arith

  pub updated_params :
      (msg : MsgUpdateParams) (c : Ctx k)
      → Ensures
          (λ _ c'. (k.params.get c'.params ≡ ok msg.params) × (c'.world ≡ c.world))
          (Server.update_params k msg c)
  updated_params msg c =
      let P : Unit {0} → Ctx k → Type 0 =
        λ _ c'. (k.params.get c'.params ≡ ok msg.params) × (c'.world ≡ c.world) in
      unfold Server.update_params in
      >>=-Ensures P _ _ _ λ _ p1. >>=-Ensures P _ _ _ λ _ p2.
        Ensures-of P (on_params (k.params.set msg.params) c) λ _ p3. (
          k.params.get-set msg.params c.params p3
              ∙ ap ok (written_params-valid k.math msg.params p2),
          refl,
        )

  registered-IsPaid :
      (floor n b b' : ℕ) (c c1 : Ctx k) (msg : MsgRegisterValidator)
      → IsPaid floor n b c c1
      → (Server.register_validator k msg c1).0 ≡ ok tt
      → k.supply (Server.register_validator k msg c1).1.world + b' ≡ k.supply c1.world + b
      → IsPaid floor (suc n) b' c (Server.register_validator k msg c1).1
  unfolding Server.register_validator
  registered-IsPaid floor n b b' c c1 msg i done spent =
      let g = register_validator_lem k msg c1 done in
      let reach = burn_reaches msg floor c1 _ i.rates g i.has_rates i.asks in
      record {
        rates = i.rates;
        has_rates = rw g.kept_params i.has_rates;
        asks = i.asks;
        count = rw g.validators (omega arith);
        paid = added_up floor n b b' g.burned _ _ i.paid reach g.supply spent;
      }

  -- After genesis, with stored parameters that ask for a burn of `floor` at least, every validator
  -- that joins has registered: along any history in which updates keep asking for `floor` and other
  -- modules add no validator, the set grows by at most one for each successful registration, and
  -- `n` registrations have burned `floor * n` at least.
  pub History-IsPaid :
      (height floor : ℕ) (c : Ctx k) (rates : Params) {n b : ℕ} {c' : Ctx k}
      → height ≢ 0
      → k.params.get c.params ≡ ok rates
      → AsksFor floor rates
      → History height floor c n b c'
      → IsPaid floor n b c c'
  History-IsPaid height floor c rates later has asks (start n b is_n is_b) = record {
    rates = rates;
    has_rates = has;
    asks = asks;
    count = omega arith;
    paid = rw (is_n, is_b) (omega arith);
  }
  History-IsPaid height floor c rates later has asks (registered {n} {b} {c1} h msg done b' spent) =
      registered-IsPaid floor n b b' c c1 msg (History-IsPaid height floor c rates later has asks h)
        done spent
  History-IsPaid height floor c rates later has asks (routed {c1 = c1} h msg done) =
      absurd (cc ((create_validator_gated k router height msg c1).0 later).0)
  History-IsPaid height floor c rates later has asks (precompiled {c1 = c1} h msg done) =
      absurd (cc ((create_validator_gated k router height msg c1).0 later).1)
  History-IsPaid height floor c rates later has asks (updated {c1 = c1} h msg done asks') =
      let i = History-IsPaid height floor c rates later has asks h in
      let (stored, same) = Ensures-ok _ _ (updated_params msg c1) done in
      record {
        rates = msg.params;
        has_rates = stored;
        asks = asks';
        count = rw same i.count;
        paid = i.paid;
      }
  History-IsPaid height floor c rates later has asks (other {c1 = c1} h w fewer) =
      let i = History-IsPaid height floor c rates later has asks h in
      record {
        rates = i.rates;
        has_rates = i.has_rates;
        asks = i.asks;
        count = omega arith;
        paid = i.paid;
      }

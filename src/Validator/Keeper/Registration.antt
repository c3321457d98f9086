-- ===== src/Validator/Keeper/Registration.antt =====
-- What a registration that returns no error has done, and what one that is refused leaves alone.
use mono_chain.Prelude.{
  ℕ, ◌+◌, ◌≡◌, refl, inl, inr, [], ◌∷◌, ◌++◌, bytes_eq, bytes_eq→eq, arith, Bool-cases,
}
use mono_chain.Prelude.Int.{pos}
use mono_chain.Sdk.Outcome.{Result, Result-cases, ok, err, Ensures, >>=-Ensures, Ensures-ok}
use mono_chain.Sdk.Amounts.{int}
use mono_chain.Sdk.Address.{Address}
use mono_chain.Validator.Types.{Params, MsgRegisterValidator}
use mono_chain.Validator.Keeper.{Keeper, Ctx, read_params, resolve_sender, register_validator}
use mono_chain.Validator.Keeper.Funds.{HasFunds, HasFunds-ok}

module _ (k : Keeper) (msg : MsgRegisterValidator) where
  -- The sender and the operator in the message are one address.
  abbrev pub IsOperator : Address → Type 0
  IsOperator a =
      (k.address_codec.string_to_bytes msg.sender ≡ ok a)
      × (k.validator_address_codec.string_to_bytes msg.create_validator.validator_address ≡ ok a)

  -- Where the sender resolves to `a`, both texts of the message decode to `a`.
  resolve_sender-ok : (a : Address) → resolve_sender k msg ≡ ok a → IsOperator a
  unfolding resolve_sender
  resolve_sender-ok a h = elim (Result-cases (k.address_codec.string_to_bytes msg.sender)) [
    | inr (e, p) ↦ absurd (ground arith)
    | inl (s, p) ↦
        elim (Result-cases
          (k.validator_address_codec.string_to_bytes msg.create_validator.validator_address)) [
            | inr (e, q) ↦ absurd (ground arith)
            | inl (o, q) ↦ elim (Bool-cases (bytes_eq s o)) [
              | inl same ↦ let e = bytes_eq→eq s o same in (ground arith, ground (arith, e))
              | inr other ↦ absurd (ground arith)
            ]
          ]
  ]

  -- A registration of the operator `a` in a state with the parameters `p`, which burned `n`.
  pub record IsRegistered (c c' : Ctx k) : Type 0 where
    pub rates : Params
    pub has_rates : k.params.get c.params ≡ ok rates
    pub funds : HasFunds msg rates
    pub operator : Address
    pub is_operator : IsOperator operator
    pub burned : ℕ
    pub is_burned : msg.burn.amount ≡ int (pos burned)
    pub supply : k.supply c'.world + burned ≡ k.supply c.world
    pub validators : k.validators c'.world ≡ operator ∷ k.validators c.world
    pub kept_params : c'.params ≡ c.params
    pub events : c'.events ≡ c.events ++ ("register_validator" ∷ [])
    -- The burn came first, and the validator was made in the state that it left.
    pub burn_done : (k.burn_keeper.burn_from_account operator msg.burn c.world).0 ≡ ok tt
    pub create_done :
        (k.staking_msg_server.create_validator msg.create_validator
          (k.burn_keeper.burn_from_account operator msg.burn c.world).1).0
        ≡ ok tt
    pub world :
        c'.world
        ≡ (k.staking_msg_server.create_validator msg.create_validator
            (k.burn_keeper.burn_from_account operator msg.burn c.world).1).1

  read_params-ok : (r : Result Params) {p : Params} → read_params k r ≡ ok p → r ≡ ok p
  read_params-ok (ok q) h = h
  read_params-ok (err e) h = cc

  pub register_validator-Ensures :
      (c : Ctx k) → Ensures (λ _ c'. IsRegistered c c') (register_validator k msg c)
  unfolding register_validator
  register_validator-Ensures c =
      let P : Unit {0} → Ctx k → Type 0 = λ _ c'. IsRegistered c c' in
      >>=-Ensures P _ _ _ λ rates p1. >>=-Ensures P _ _ _ λ sender p2. >>=-Ensures P _ _ _ λ _ p3.
        >>=-Ensures P _ _ _ λ _ p4. >>=-Ensures P _ _ _ λ _ p5.
          let w : k.World = (k.burn_keeper.burn_from_account sender msg.burn c.world).1 in
          let (n, is_n, gone, same) = k.burn_keeper.burns sender msg.burn c.world p4 in
          let (a, decoded, added, kept) = k.staking_msg_server.creates msg.create_validator w p5 in
          let op = resolve_sender-ok sender p2 in
          let one_operator : a ≡ sender = cc (decoded, op.1) in
          record {
            rates = rates;
            has_rates = read_params-ok _ p1;
            funds = HasFunds-ok msg rates p3;
            operator = sender;
            is_operator = op;
            burned = n;
            is_burned = is_n;
            supply = rw kept gone;
            validators = rw (added, same, one_operator) refl;
            kept_params = refl;
            events = refl;
            burn_done = p4;
            create_done = p5;
            world = refl;
          }

  -- A registration that returns no error came from the operator itself and brought the funds that
  -- the parameters ask for; it took the burn out of the supply, added the one validator, kept the
  -- parameters, and emitted one event. The burn came first, and the validator was made in the state
  -- that it left.
  pub register_validator_lem :
      (c : Ctx k)
      → (register_validator k msg c).0 ≡ ok tt
      → IsRegistered c (register_validator k msg c).1
  register_validator_lem c = Ensures-ok (λ _ c'. IsRegistered c c') _ (register_validator-Ensures c)

  -- The sender is the operator and brings the funds that the stored parameters ask for.
  abbrev pub Passes : Ctx k → Type 0
  Passes c =
      (rates : Params) × (a : Address) × (k.params.get c.params ≡ ok rates)
      × IsOperator a
      × HasFunds msg rates

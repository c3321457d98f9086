-- ===== src/Burn/Keeper/Fees.antt =====
-- The fee burn at the start of each block: `ProcessFeeBurn` of x/burn/keeper/fee_burn.go.
use mono_chain.Prelude.{
  ℕ, ◌*◌, ◌/◌, ◌≤◌, ◌<◌, ◌≡◌, refl, sym, ap, subst, ◌∙◌, Bool, true, false, [], ◌∷◌, ◌++◌, arith,
  inl, inr, Bool-cases, ltb,
}
use mono_chain.Prelude.Int.{pos}
use mono_chain.Sdk.Outcome.{
  ok, err, panicked, lift, return_unless, ◌>>=◌, ◌>>◌, Ensures, >>=-Ensures, Ensures-ok,
}
use mono_chain.Sdk.Amounts.{
  MathInt, int, Dec18, dec, Coin, one, is_positive, dec_limit, coin_is_valid,
}
use mono_chain.Sdk.Address.{Address}
use mono_chain.Burn.Types.{Params, fee_collector_name, default_bond_denom}
use mono_chain.Burn.Keeper.{Keeper, Ctx, emit, burn_from_module, fee_burn_event, process_fee_burn}
use mono_chain.Burn.Keeper.Trackers.{IsTracked, IsTracked-events}
use mono_chain.Burn.Keeper.Burns.{IsDestroyed, IsBurned, burn_from_module-Ensures}

-- `p` units of 10^-18 of `b`, rounded down.
abbrev pub share : ℕ → ℕ → ℕ
share p b = p * b / one

pub share-le : (p b : ℕ) → p ≤ one → share p b ≤ b
share-le p b h = div-le (p * b) b (grind arith)
  where
    div-le : (x y : ℕ) → x ≤ one * y → x / one ≤ y
    div-le x y h' = omega arith

abbrev pub alyth : ℕ → Coin
alyth n = record { denom = default_bond_denom; amount = int (pos n) }

module _ (k : Keeper) where
  open k use {math}

  fee_amount :
      (p b : ℕ) (fp : Dec18) (amt : MathInt) (r : Dec18) (z : MathInt)
      → fp ≡ dec (pos p)
      → amt ≡ int (pos b)
      → math.mul_int fp amt ≡ ok r
      → math.truncate_int r ≡ ok z
      → z ≡ int (pos (share p b))
  fee_amount p b fp amt r z ep eb em et = elim (Bool-cases (ltb (p * b) dec_limit)) [
    | inl fits ↦
        let prod : math.mul_int (dec (pos p)) (int (pos b)) ≡ ok (dec (pos (p * b))) =
          math.mul_int_lem p b ∙ rw fits in
        cc (prod, math.truncate_int_lem (p * b))
    | inr large ↦
        let prod : math.mul_int (dec (pos p)) (int (pos b)) ≡ err panicked =
          math.mul_int_lem p b ∙ rw large in
        cc prod
  ]

  fee_coin :
      (z : MathInt) (coin : Coin)
      → math.new_coin default_bond_denom z ≡ ok coin
      → coin ≡ record { denom = default_bond_denom; amount = z }
  fee_coin z coin e = elim (Bool-cases (coin_is_valid math.valid_denom default_bond_denom z)) [
    | inl valid ↦ cc (math.new_coin_lem default_bond_denom z, valid, e)
    | inr bad ↦ cc (math.new_coin_lem default_bond_denom z, bad, e)
  ]

  -- What a fee burn at `p` units of 10^-18 does to a collector that holds `b`: the share of `b`
  -- leaves the collector and the supply, and enters the trackers in the collector's name.
  pub record IsFeeBurned (rate : Params) (q : ℕ) (c c' : Ctx k) : Type 0 where
    pub destroyed :
        IsDestroyed k (k.bank.module_address fee_collector_name) (alyth q) c.bank c'.bank
    pub tracked : 0 < q → IsTracked k (k.bank.module_address fee_collector_name) (int (pos q)) c c'
    pub event : 0 < q → c'.events ≡ c.events ++ (fee_burn_event k rate (alyth q) ∷ [])
    pub untouched : q ≡ 0 → c' ≡ c
    pub kept_params : c'.params ≡ c.params

  module _ (c : Ctx k) (rate : Params) (p : ℕ) (is_rate : k.params.get c.params ≡ ok rate)
      (is_p : rate.fee_burn_percent ≡ dec (pos p)) where
    abbrev collector : Address
    collector = k.bank.module_address fee_collector_name

    -- what `ProcessFeeBurn` will burn in this state
    abbrev fee : ℕ
    fee = share p (k.bank.balance collector default_bond_denom c.bank)

    abbrev Burnt : Unit {0} → Ctx k → Type 0
    Burnt _ c' = IsFeeBurned rate fee c c'

    rest-Ensures :
        (z : MathInt) (positive : Bool)
        → z ≡ int (pos fee)
        → is_positive z ≡ ok positive
        → Ensures Burnt (
            return_unless positive
              (lift (math.new_coin default_bond_denom z) >>= λ coin.
                burn_from_module k fee_collector_name coin >> emit (fee_burn_event k rate coin))
              c)
    rest-Ensures z false ez e =
        let none_left : fee ≡ 0 = ground (arith, ap is_positive (sym ez) ∙ e) in
        record {
          destroyed = λ x d. rw none_left (ground arith);
          tracked = λ h. absurd (omega arith);
          event = λ h. absurd (omega arith);
          untouched = λ _. refl;
          kept_params = refl;
        }
    rest-Ensures z true ez e = >>=-Ensures Burnt _ _ _ λ coin p1. >>=-Ensures Burnt _ _ _ λ _ p2.
        let c' : Ctx k = (burn_from_module k fee_collector_name coin c).1 in
        let is_coin : coin ≡ alyth fee =
          fee_coin z coin p1 ∙ ap (λ w. record { denom = default_bond_denom; amount = w }) ez in
        let b : IsBurned k collector collector (alyth fee) c c' =
          subst (λ w. IsBurned k collector collector w c c') is_coin
            (Ensures-ok (λ _ s. IsBurned k collector collector coin c s) _
              (burn_from_module-Ensures k fee_collector_name coin c) p2) in
        let amount_is_fee : b.amount ≡ fee = cc b.is_amount in
        let positive_fee : 0 < fee = ground (arith, ap is_positive (sym ez) ∙ e) in
        record {
          destroyed = b.destroyed;
          tracked = λ h. IsTracked-events k _ (b.tracked (rw amount_is_fee h)).1;
          event = λ h. rw (b.events, is_coin) refl;
          untouched = λ h. absurd (omega arith);
          kept_params = b.params;
        }

    -- A block's fee burn that succeeds takes the share of the collected fees that the rate says,
    -- rounded down.
    pub process_fee_burn-Ensures : Ensures Burnt (process_fee_burn k c)
    unfolding process_fee_burn
    process_fee_burn-Ensures = >>=-Ensures Burnt _ _ _ λ params p1.
        >>=-Ensures Burnt _ _ _ λ native p2. >>=-Ensures Burnt _ _ _ λ r p3.
          >>=-Ensures Burnt _ _ _ λ z p4. >>=-Ensures Burnt _ _ _ λ positive p5.
            let same : rate ≡ params = cc in
            let is_native : native ≡ record {
              denom = default_bond_denom;
              amount = int (pos (k.bank.balance collector default_bond_denom c.bank));
            } =
              cc (k.bank.get_balance_lem collector default_bond_denom c.bank) in
            let ez : z ≡ int (pos fee) =
              fee_amount p (k.bank.balance collector default_bond_denom c.bank)
                params.fee_burn_percent native.amount r z
                (ap (λ (w : Params). w.fee_burn_percent) (sym same) ∙ is_p)
                (ap (λ (w : Coin). w.amount) is_native) p3 p4 in
            subst
              (λ w. Ensures Burnt (
                return_unless positive
                  (lift (math.new_coin default_bond_denom z) >>= λ coin.
                    burn_from_module k fee_collector_name coin >> emit (fee_burn_event k w coin))
                  c))
              same (rest-Ensures z positive ez p5)

  -- In a state whose rate is `p` units of 10^-18, a fee burn that returns no error takes the share
  -- `p / 10^18` of the collected fees, rounded down, from the collector and from the supply, enters
  -- it in the trackers in the collector's name, and emits one event; where that share is zero it
  -- changes nothing. A rate of at most one takes no more than was collected.
  pub process_fee_burn_lem :
      (c : Ctx k) (rate : Params) (p : ℕ)
      → k.params.get c.params ≡ ok rate
      → rate.fee_burn_percent ≡ dec (pos p)
      → (process_fee_burn k c).0 ≡ ok tt
      → let b =
          k.bank.balance (k.bank.module_address fee_collector_name) default_bond_denom c.bank in
        IsFeeBurned rate (share p b) c (process_fee_burn k c).1 × (p ≤ one → share p b ≤ b)
  process_fee_burn_lem c rate p is_rate is_p done =
      (Ensures-ok _ _ (process_fee_burn-Ensures c rate p is_rate is_p) done, share-le p _)

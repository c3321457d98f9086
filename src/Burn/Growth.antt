-- ===== src/Burn/Growth.antt =====
-- What one operation of x/burn does to the totals and to the supply, and the invariant of a chain
-- that it keeps.
use mono_chain.Prelude.{
  ℕ, zero, suc, ◌+◌, ◌≤◌, ◌<◌, ◌≡◌, refl, ap, ◌∙◌, true, [], ◌∷◌, arith, str_eq, eq_iff,
}
use mono_chain.Prelude.Int.{ℤ, pos, negsuc, ◌+ℤ◌, int_laws}
use mono_chain.Sdk.Outcome.{ok, Ensures, >>=-Ensures, Ensures-of, Ensures-map}
use mono_chain.Sdk.Amounts.{int, Dec18, dec, Coin, one, amount_of}
use mono_chain.Sdk.Address.{Address}
use mono_chain.Burn.Types.{
  Params, validate_params, written_params-valid, validate_fee_burn_percent, MsgBurn,
  MsgUpdateParams, fee_collector_name, default_bond_denom,
}
use mono_chain.Burn.Keeper.{
  Keeper, Ctx, on_params, get_global_burn_total, burn_from_account, process_fee_burn,
}
use mono_chain.Burn.Keeper.Trackers.{IsTracked}
use mono_chain.Burn.Keeper.Burns.{IsBurned, burn_from_account-Ensures}
use mono_chain.Burn.Keeper.Fees.{IsFeeBurned, alyth, process_fee_burn-Ensures}
use mono_chain.Burn.Server
use mono_chain.Burn.Solvent.{AreAmounts, written-AreAmounts}
use mono_chain.Burn.Totals.{sum_totals, sum_totals-IsTracked, int_sum-int}

-- A rate that `Params.Validate` accepts is a number of units from zero to one.
pub validate_params-rate :
    (p : Params)
    → validate_params p ≡ ok tt
    → (n : ℕ) × (p.fee_burn_percent ≡ dec (pos n)) × (n ≤ one)
unfolding validate_params
validate_params-rate p h = go p.fee_burn_percent h
  where
    go : (d : Dec18) → validate_fee_burn_percent d ≡ ok tt → (n : ℕ) × (d ≡ dec (pos n)) × (n ≤ one)
    go Dec18.nil e = absurd (ground arith)
    go (dec (pos n)) e = (n, refl, ground arith)
    go (dec (negsuc n)) e = absurd (ground arith)

conserve : (t base : ℤ) (x y n : ℕ) → y + n ≡ x → t +ℤ pos x ≡ base → t +ℤ pos n +ℤ pos y ≡ base
conserve t base x y n e h = let same : t +ℤ pos n +ℤ pos y ≡ t +ℤ pos x = omega int_laws in same ∙ h

conserve_zero : (t base : ℤ) (x y : ℕ) → y + 0 ≡ x → t +ℤ pos x ≡ base → t +ℤ pos y ≡ base
conserve_zero t base x y e h = let same : y ≡ x = omega arith in rw same h

module _ (k : Keeper) where
  -- `n` alyth left the supply and, unless it is zero, entered the trackers in the name of `a`.
  pub record IsGrown (a : Address) (n : ℕ) (c c' : Ctx k) : Type 0 where
    pub supply :
        k.bank.supply default_bond_denom c'.bank + n ≡ k.bank.supply default_bond_denom c.bank
    pub tracked : 0 < n → IsTracked k a (int (pos n)) c c'
    pub untracked : n ≡ 0 → (c'.total ≡ c.total) × (c'.accounts ≡ c.accounts)
    pub kept_params : c'.params ≡ c.params

  -- The global total is the sum of the totals of the accounts, and what was ever burned together
  -- with what is left of the bond denomination is the constant `base`; the rate is a valid one.
  pub record IsSound (base : ℤ) (c : Ctx k) : Type 0 where
    pub total : ℤ
    pub is_total : get_global_burn_total k c ≡ ok (int total)
    pub balanced : total ≡ sum_totals (k.account_burn_total.entries c.accounts)
    pub conserved : total +ℤ pos (k.bank.supply default_bond_denom c.bank) ≡ base
    pub rate : Params
    pub is_rate : k.params.get c.params ≡ ok rate
    pub valid_rate : validate_params rate ≡ ok tt

  -- The invariant is kept, and its total grows by what was burned.
  pub IsGrown-adds :
      (base : ℤ) (a : Address) (n : ℕ) (c c' : Ctx k)
      → IsGrown a n c c'
      → (s : IsSound base c) → (s' : IsSound base c') × (s'.total ≡ s.total +ℤ pos n)
  IsGrown-adds base a zero c c' g s =
      let (same_total, same_accounts) = g.untracked refl in
      (
        record {
          total = s.total;
          is_total = rw same_total s.is_total;
          balanced = rw same_accounts s.balanced;
          conserved = conserve_zero s.total base _ _ g.supply s.conserved;
          rate = s.rate;
          is_rate = rw g.kept_params s.is_rate;
          valid_rate = s.valid_rate;
        },
        omega int_laws,
      )
  IsGrown-adds base a (suc m) c c' g s =
      let t = g.tracked (omega arith) in
      let same : t.total ≡ int s.total = cc (t.total_before, s.is_total) in
      let grown : t.total_after ≡ int (s.total +ℤ pos (suc m)) =
        int_sum-int s.total (pos (suc m)) t.total_after (rw same at t.total_sum) in
      (
        record {
          total = s.total +ℤ pos (suc m);
          is_total = t.total_next ∙ ap ok grown;
          balanced = rw (sum_totals-IsTracked k a (int (pos (suc m))) c c' t, ← s.balanced) refl;
          conserved = conserve s.total base _ _ (suc m) g.supply s.conserved;
          rate = s.rate;
          is_rate = rw g.kept_params s.is_rate;
          valid_rate = s.valid_rate;
        },
        refl,
      )

  -- Totals of accounts that are amounts stay amounts.
  pub IsGrown-AreAmounts :
      (a : Address) (n : ℕ) (c c' : Ctx k)
      → IsGrown a n c c'
      → AreAmounts (k.account_burn_total.entries c.accounts)
      → AreAmounts (k.account_burn_total.entries c'.accounts)
  IsGrown-AreAmounts a zero c c' g p = rw (g.untracked refl).1 p
  IsGrown-AreAmounts a (suc m) c c' g p =
      let t = g.tracked (omega arith) in
      written-AreAmounts a (suc m) t.account t.account_after _ _ _ t.written t.account_before
        t.account_sum p

  pub amount_of_bond :
      (coin : Coin) (n : ℕ)
      → coin.amount ≡ int (pos n)
      → (0 < n → coin.denom ≡ default_bond_denom)
      → amount_of default_bond_denom (coin ∷ []) ≡ n
  amount_of_bond coin zero is_n denom = ground arith
  amount_of_bond coin (suc m) is_n denom =
      let same : str_eq coin.denom default_bond_denom ≡ true =
        (eq_iff coin.denom default_bond_denom).1 (denom (omega arith)) in
      rw (same, is_n) (omega arith)

  pub IsBurned-IsGrown :
      (a : Address) (coin : Coin) (c c' : Ctx k) (b : IsBurned k a a coin c c')
      → IsGrown a b.amount c c'
  IsBurned-IsGrown a coin c c' b = record {
    supply =
        rw (amount_of_bond coin b.amount b.is_amount (λ h. (b.tracked h).0)) at
          (b.destroyed a default_bond_denom).1;
    tracked = λ h. rw b.is_amount at (b.tracked h).1;
    untracked =
        λ z. let (_, same_total, same_accounts) = b.untracked z in (same_total, same_accounts);
    kept_params = b.params;
  }

  IsFeeBurned-IsGrown :
      (rate : Params) (q : ℕ) (c c' : Ctx k)
      → IsFeeBurned k rate q c c'
      → IsGrown (k.bank.module_address fee_collector_name) q c c'
  IsFeeBurned-IsGrown rate q c c' b = record {
    supply =
        rw (amount_of_bond (alyth q) q refl (λ _. refl)) at
          (b.destroyed (k.bank.module_address fee_collector_name) default_bond_denom).1;
    tracked = b.tracked;
    untracked = λ z. (
      ap (λ (s : Ctx k). s.total) (b.untouched z),
      ap (λ (s : Ctx k). s.accounts) (b.untouched z),
    );
    kept_params = b.kept_params;
  }

  pub burn-Ensures :
      (msg : MsgBurn) (c : Ctx k)
      → Ensures (λ _ c'. (a : Address) × (n : ℕ) × IsGrown a n c c') (Server.burn k msg c)
  burn-Ensures msg c =
      let P : Unit {0} → Ctx k → Type 0 = λ _ c'. (a : Address) × (n : ℕ) × IsGrown a n c c' in
      unfold Server.burn in
      >>=-Ensures P _ _ _ λ a p.
        Ensures-map P (burn_from_account k a msg.amount c)
          (λ _ c' b. (a, b.amount, IsBurned-IsGrown a msg.amount c c' b))
          (burn_from_account-Ensures k a msg.amount c)

  pub begin_block-Ensures :
      (base : ℤ) (c : Ctx k)
      → IsSound base c
      → Ensures (λ _ c'. (a : Address) × (n : ℕ) × IsGrown a n c c') (Server.begin_block k c)
  begin_block-Ensures base c s =
      let P : Unit {0} → Ctx k → Type 0 = λ _ c'. (a : Address) × (n : ℕ) × IsGrown a n c c' in
      let (p, is_p, small) = validate_params-rate s.rate s.valid_rate in
      unfold Server.begin_block in
      Ensures-map P (process_fee_burn k c) (λ _ c' b. (_, _, IsFeeBurned-IsGrown s.rate _ c c' b))
        (process_fee_burn-Ensures k c s.rate p s.is_rate is_p)

  -- An update of the parameters leaves the totals.
  pub update_params-Ensures :
      (base : ℤ) (msg : MsgUpdateParams) (c : Ctx k) (s : IsSound base c)
      → Ensures
          (λ _ c'. (s' : IsSound base c') × (s'.total ≡ s.total) × (c'.accounts ≡ c.accounts))
          (Server.update_params k msg c)
  update_params-Ensures base msg c s =
      let P : Unit {0} → Ctx k → Type 0 =
        λ _ c'. (s' : IsSound base c') × (s'.total ≡ s.total) × (c'.accounts ≡ c.accounts) in
      unfold Server.update_params in
      >>=-Ensures P _ _ _ λ _ p1. >>=-Ensures P _ _ _ λ _ p2.
        Ensures-of P (on_params (k.params.set msg.params) c) λ _ p3. (
          record {
            total = s.total;
            is_total = s.is_total;
            balanced = s.balanced;
            conserved = s.conserved;
            rate = msg.params;
            is_rate =
                k.params.get-set msg.params c.params p3
                ∙ ap ok (written_params-valid msg.params p2);
            valid_rate = p2;
          },
          refl,
          refl,
        )

-- ===== src/Burn/Keeper/Room.antt =====
-- When the trackers and `burnNative` take a coin: the burner's account holds it, the supply covers it,
-- and the totals have room.
use mono_chain.Prelude.{
  ℕ, suc, ◌+◌, ◌≤◌, ◌<◌, ◌≡◌, refl, subst, ◌∙◌, true, String, List, [], ◌∷◌, arith, Bool-cases, inl,
  inr, lt→ltb, str_eq, eq_iff, bytes_eq, bytes_eq→eq, bytes_eq_self,
}
use mono_chain.Prelude.Int.{ℤ, pos, ◌+ℤ◌, magnitude}
use mono_chain.Sdk.Outcome.{ok, or_if_not_found, >>=-eq-ok}
use mono_chain.Sdk.Amounts.{
  MathInt, int, zero_int, int_sum, int_limit, Coin, is_positive, amount_of,
}
use mono_chain.Sdk.Bank.{at}
use mono_chain.Sdk.Address.{Address}
use mono_chain.Burn.Types.{module_name, default_bond_denom}
use mono_chain.Burn.Keeper.{Keeper, Ctx, update_trackers, burn_native}
use mono_chain.Burn.Keeper.Fees.{alyth}

pub positive_suc : (m : ℕ) → is_positive (int (pos (suc m))) ≡ ok true
positive_suc m = ground arith

sum_fits :
    (z : ℤ) (n : ℕ)
    → magnitude (z +ℤ pos n) < int_limit
    → int_sum (int z) (int (pos n)) ≡ ok (int (z +ℤ pos n))
sum_fits z n h = rw (lt→ltb _ _ h)

module _ (k : Keeper) where
  open k use {math}

  -- The counter answers, and the totals are numbers that can grow by `n` and be stored.
  pub record CanTake (a : Address) (n : ℕ) (count_state : k.global_burn_count.State)
      (total_state : k.global_burn_total.State) (account_state : k.account_burn_total.State)
      : Type 0 where
    pub count : ℕ
    pub counts : (k.global_burn_count.next count_state).0 ≡ ok count
    pub total : ℤ
    pub is_total : or_if_not_found (k.global_burn_total.get total_state) zero_int ≡ ok (int total)
    pub total_fits : magnitude (total +ℤ pos n) < int_limit
    pub total_stores : (v : MathInt) → (k.global_burn_total.set v total_state).0 ≡ ok tt
    pub account : ℤ
    pub is_account :
        or_if_not_found (k.account_burn_total.get a account_state) zero_int ≡ ok (int account)
    pub account_fits : magnitude (account +ℤ pos n) < int_limit
    pub account_stores : (v : MathInt) → (k.account_burn_total.set a v account_state).0 ≡ ok tt

  abbrev pub CanTrack : Address → ℕ → Ctx k → Type 0
  CanTrack a n c = CanTake a n c.count c.total c.accounts

  update_trackers-succeeds :
      (a : Address) (n : ℕ) (c : Ctx k)
      → CanTrack a n c
      → (update_trackers k a (alyth n) c).0 ≡ ok tt
  unfolding update_trackers
  update_trackers-succeeds a n c t = >>=-eq-ok _ _ _ t.count t.counts (
      >>=-eq-ok _ _ _ (int t.total) t.is_total (
        >>=-eq-ok _ _ _ (int (t.total +ℤ pos n))
          (math.add_lem _ _ ∙ sum_fits t.total n t.total_fits)
          (>>=-eq-ok _ _ _ tt (t.total_stores _) (
            >>=-eq-ok _ _ _ (int t.account) t.is_account (
              >>=-eq-ok _ _ _ (int (t.account +ℤ pos n))
                (math.add_lem _ _ ∙ sum_fits t.account n t.account_fits) (t.account_stores _))))))

  pub new_coins_alyth : (m : ℕ) → math.new_coins (alyth (suc m)) ≡ ok (alyth (suc m) ∷ [])
  new_coins_alyth m = rw (math.new_coins_lem, math.alyth_valid)

  amount_of-alyth : (m : ℕ) (d : String) → amount_of d (alyth m ∷ []) ≤ m
  amount_of-alyth m d = ground arith

  -- What covers the coin in the bond denomination covers it in all.
  pub covers :
      (m : ℕ) (held : String → ℕ)
      → m ≤ held default_bond_denom
      → (d : String) → amount_of d (alyth m ∷ []) ≤ held d
  covers m held h d = elim (Bool-cases (str_eq default_bond_denom d)) [
    | inl same ↦
        rw same (subst (λ w. m + 0 ≤ held w) ((eq_iff default_bond_denom d).0 same) (omega arith))
    | inr other ↦ rw other (omega arith)
  ]

  pub burn_native-succeeds :
      (a : Address) (m : ℕ) (c : Ctx k)
      → k.bank.burner module_name c.bank
      → suc m ≤ k.bank.balance (k.bank.module_address module_name) default_bond_denom c.bank
      → suc m ≤ k.bank.supply default_bond_denom c.bank
      → CanTrack a (suc m) c
      → (burn_native k a (alyth (suc m)) c).0 ≡ ok tt
  unfolding burn_native
  burn_native-succeeds a m c may_burn funds covered t =
      let coins : List Coin = alyth (suc m) ∷ [] in
      let c1 : Ctx k = record c { bank = (k.bank.burn_coins module_name coins c.bank).1 } in
      >>=-eq-ok _ _ _ true (positive_suc m) (
        >>=-eq-ok _ _ _ tt refl (
          >>=-eq-ok _ _ _ coins (new_coins_alyth m) (
            >>=-eq-ok _ _ _ tt
              (k.bank.burn_coins_succeeds module_name coins c.bank may_burn
                (covers (suc m) (λ d. k.bank.balance _ d c.bank) funds)
                (covers (suc m) (λ d. k.bank.supply d c.bank) covered))
              (update_trackers-succeeds a (suc m) c1 t))))

  -- After a transfer from `a` the module's account holds the coin.
  pub funded :
      (a : Address) (m : ℕ) (s s' : k.bank.State)
      → let d = default_bond_denom in
        let burner = k.bank.module_address module_name in
        let n = amount_of d (alyth m ∷ []) in
        k.bank.balance burner d s' + at a n burner ≡ k.bank.balance burner d s + at burner n burner
        → m ≤ k.bank.balance a d s
        → m ≤ k.bank.balance burner d s'
  funded a m s s' moved funds =
      let burner : Address = k.bank.module_address module_name in
      let self = bytes_eq_self burner in
      elim (Bool-cases (bytes_eq burner a)) [
        | inl same ↦
            let e : burner ≡ a = bytes_eq→eq _ _ same in
            let held : m ≤ k.bank.balance burner default_bond_denom s = rw e funds in
            let moved' = rw (same, self) at moved in omega arith
        | inr other ↦ let moved' = rw (other, self) at moved in omega arith
      ]

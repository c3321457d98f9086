-- ===== src/Burn/Keeper/Progress.antt =====
-- When burns go through: with accounts that exist, funds that cover the coin and trackers that can
-- take it, `BurnFromModule` and `ProcessFeeBurn` return no error.
use mono_chain.Prelude.{
  ℕ, zero, suc, ◌*◌, ◌≤◌, ◌<◌, ◌≡◌, refl, Bool, true, false, String, List, [], ◌∷◌, arith, lt→ltb,
}
use mono_chain.Prelude.Int.{pos}
use mono_chain.Sdk.Outcome.{ok, lift, return_unless, ◌>>=◌, ◌>>◌, >>=-eq-ok}
use mono_chain.Sdk.Amounts.{int, dec, Coin, one, is_positive, dec_limit}
use mono_chain.Sdk.Address.{Address}
use mono_chain.Burn.Types.{Params, module_name, fee_collector_name, default_bond_denom}
use mono_chain.Burn.Keeper.{
  Keeper, Ctx, emit, burn_native, burn_from_account, burn_from_module, fee_burn_event,
  process_fee_burn,
}
use mono_chain.Burn.Keeper.Fees.{share, share-le, alyth}
use mono_chain.Burn.Keeper.Room.{
  positive_suc, CanTrack, new_coins_alyth, covers, burn_native-succeeds, funded,
}

module _ (k : Keeper) where
  open k use {math}

  burn_from_module-succeeds :
      (l : String) (m : ℕ) (c : Ctx k)
      → k.bank.registered l c.bank
      → k.bank.registered module_name c.bank
      → k.bank.burner module_name c.bank
      → suc m ≤ k.bank.balance (k.bank.module_address l) default_bond_denom c.bank
      → suc m ≤ k.bank.supply default_bond_denom c.bank
      → CanTrack k (k.bank.module_address l) (suc m) c
      → (burn_from_module k l (alyth (suc m)) c).0 ≡ ok tt
  unfolding burn_from_module
  burn_from_module-succeeds l m c known burn_known may_burn funds covered t =
      let coins : List Coin = alyth (suc m) ∷ [] in
      let burner : Address = k.bank.module_address module_name in
      let (sent, keeps) =
        k.bank.module_to_module_succeeds l module_name coins c.bank known burn_known
          (covers k (suc m) (λ d. k.bank.balance _ d c.bank) funds) in
      let c1 : Ctx k = record c { bank = (k.bank.module_to_module l module_name coins c.bank).1 } in
      >>=-eq-ok _ _ _ coins (new_coins_alyth k m) (
        >>=-eq-ok _ _ _ tt sent (
          burn_native-succeeds k (k.bank.module_address l) m c1 (keeps may_burn)
            (funded k (k.bank.module_address l) (suc m) c.bank c1.bank
              (k.bank.module_to_module_moves l module_name coins c.bank sent burner
                default_bond_denom).0
              funds)
            (rw
              (k.bank.module_to_module_moves l module_name coins c.bank sent []
                default_bond_denom).1
              covered)
            t))

  -- `BurnFromAccount` by an account that may send the coin, where the module account of x/burn exists
  -- and may burn.
  pub burn_from_account-succeeds :
      (a : Address) (m : ℕ) (c : Ctx k)
      → k.bank.registered module_name c.bank
      → k.bank.burner module_name c.bank
      → suc m ≤ k.bank.spendable a default_bond_denom c.bank
      → suc m ≤ k.bank.supply default_bond_denom c.bank
      → CanTrack k a (suc m) c
      → (burn_from_account k a (alyth (suc m)) c).0 ≡ ok tt
  unfolding burn_from_account
  burn_from_account-succeeds a m c known may_burn funds backed t =
      let coins : List Coin = alyth (suc m) ∷ [] in
      let burner : Address = k.bank.module_address module_name in
      let (sent, keeps) =
        k.bank.account_to_module_succeeds a module_name coins c.bank known
          (covers k (suc m) (λ d. k.bank.spendable a d c.bank) funds) in
      let c1 : Ctx k = record c {
        bank = (k.bank.account_to_module a module_name coins c.bank).1;
      } in
      let held = k.bank.spendable_le a default_bond_denom c.bank in
      >>=-eq-ok _ _ _ coins (new_coins_alyth k m) (
        >>=-eq-ok _ _ _ tt sent (
          burn_native-succeeds k a m c1 (keeps may_burn)
            (funded k a (suc m) c.bank c1.bank
              (k.bank.account_to_module_moves a module_name coins c.bank sent burner
                default_bond_denom).0
              (omega arith))
            (rw
              (k.bank.account_to_module_moves a module_name coins c.bank sent []
                default_bond_denom).1
              backed)
            t))

  -- The same, where the coin may be of nothing: then there is nothing to send or to track.
  pub burn_from_account-succeeds_any :
      (a : Address) (n : ℕ) (c : Ctx k)
      → k.bank.registered module_name c.bank
      → k.bank.burner module_name c.bank
      → n ≤ k.bank.spendable a default_bond_denom c.bank
      → n ≤ k.bank.supply default_bond_denom c.bank
      → (0 < n → CanTrack k a n c)
      → (burn_from_account k a (alyth n) c).0 ≡ ok tt
  unfolding burn_from_account burn_native
  burn_from_account-succeeds_any a zero c known may_burn funds backed t =
      let (sent, keeps) =
        k.bank.account_to_module_succeeds a module_name [] c.bank known (λ d. omega arith) in
      >>=-eq-ok _ _ _ [] (rw math.new_coins_lem)
        (>>=-eq-ok _ _ _ tt sent (>>=-eq-ok _ _ _ false (ground arith) refl))
  burn_from_account-succeeds_any a (suc m) c known may_burn funds backed t =
      burn_from_account-succeeds a m c known may_burn funds backed (t (omega arith))

  module _ (c : Ctx k) (rate : Params) (p : ℕ) where
    abbrev collector : Address
    collector = k.bank.module_address fee_collector_name

    abbrev collected : ℕ
    collected = k.bank.balance collector default_bond_denom c.bank

    collected_coin :
        (k.bank.get_balance collector default_bond_denom c.bank).amount ≡ int (pos collected)
    collected_coin = rw k.bank.get_balance_lem

    rest-succeeds :
        (q : ℕ)
        → q ≤ collected
        → k.bank.registered fee_collector_name c.bank
        → k.bank.registered module_name c.bank
        → k.bank.burner module_name c.bank
        → q ≤ k.bank.supply default_bond_denom c.bank
        → (0 < q → CanTrack k collector q c)
        → (positive : Bool) × (is_positive (int (pos q)) ≡ ok positive)
          × ((return_unless positive
                (lift (math.new_coin default_bond_denom (int (pos q))) >>= λ coin.
                  burn_from_module k fee_collector_name coin >> emit (fee_burn_event k rate coin))
                c).0
              ≡ ok tt)
    rest-succeeds zero covered known burn_known may_burn backed track = (false, ground arith, refl)
    rest-succeeds (suc m) covered known burn_known may_burn backed track = (
      true,
      positive_suc m,
      >>=-eq-ok _ _ _ (alyth (suc m)) (rw (math.new_coin_lem, math.alyth_valid)) (
          >>=-eq-ok _ _ _ tt
            (burn_from_module-succeeds fee_collector_name m c known burn_known may_burn covered
              backed (track (ground arith)))
            refl),
    )

    -- With a stored rate of `p` units, zero to one, a product of the rate and the collected fees
    -- below the limit of a decimal, module accounts that exist, a burn account that may burn, a
    -- supply that covers the share, and trackers that can take it where it is not zero, the fee
    -- burn at the start of a block returns no error.
    pub process_fee_burn-succeeds :
        k.params.get c.params ≡ ok rate
        → rate.fee_burn_percent ≡ dec (pos p)
        → p ≤ one
        → p * collected < dec_limit
        → k.bank.registered fee_collector_name c.bank
        → k.bank.registered module_name c.bank
        → k.bank.burner module_name c.bank
        → share p collected ≤ k.bank.supply default_bond_denom c.bank
        → (0 < share p collected → CanTrack k collector (share p collected) c)
        → (process_fee_burn k c).0 ≡ ok tt
    unfolding process_fee_burn
    process_fee_burn-succeeds is_rate is_p small fits known burn_known may_burn backed track =
        let (positive, is_positive_q, done) =
          rest-succeeds (share p collected) (share-le p collected small) known burn_known may_burn
            backed track in
        >>=-eq-ok _ _ _ rate is_rate (
          >>=-eq-ok _ _ _ (k.bank.get_balance collector default_bond_denom c.bank) refl (
            >>=-eq-ok _ _ _ (dec (pos (p * collected)))
              (rw (is_p, collected_coin, math.mul_int_lem) (rw (lt→ltb _ _ fits)))
              (>>=-eq-ok _ _ _ (int (pos (share p collected))) (math.truncate_int_lem _)
                (>>=-eq-ok _ _ _ positive is_positive_q done))))

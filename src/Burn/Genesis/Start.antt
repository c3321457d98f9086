-- ===== src/Burn/Genesis/Start.antt =====
-- What `InitGenesis` leaves is a state in which the invariant of a chain holds.
use mono_chain.Prelude.{◌≡◌, refl, sym, ap, ◌∙◌, String, List, [], ◌∷◌, subst, arith}
use mono_chain.Prelude.Int.{ℤ, pos, negsuc, ◌+ℤ◌, int_laws}
use mono_chain.Sdk.Outcome.{not_found, ok, err, ◌>>◌, Ensures, >>=-Ensures, Ensures-map, Ensures-ok}
use mono_chain.Sdk.Amounts.{MathInt, int, int_value, written_amount}
use mono_chain.Sdk.Address.{Address}
use mono_chain.Burn.Types.{
  AccountBurnRecord, GenesisState, written_params, written_params-valid, validate_genesis,
  default_bond_denom,
}
use mono_chain.Burn.Keeper.{Keeper, Ctx, on_accounts}
use mono_chain.Burn.Totals.{sum_totals}
use mono_chain.Burn.Solvent.{AreAmounts, IsAmount, added}
use mono_chain.Burn.Growth.{IsSound}
use mono_chain.Burn.Serves.{AccountsAreAmounts}
use mono_chain.Burn.Genesis.{init_accounts, set_total, init_genesis}
use mono_chain.Burn.Genesis.Valid.{IsTotal, AreRecords, validate_genesis_iff}
use mono_chain.Burn.Genesis.RoundTrip.{Decodes, Fresh, Fresh-set, Loaded, init_genesis-Ensures}

-- The sum of the records of a genesis state.
abbrev pub sum_records : List AccountBurnRecord → ℤ
sum_records [] = pos 0
sum_records (r ∷ rs) = int_value r.total +ℤ sum_records rs

IsTotal-IsAmount : (x : MathInt) → IsTotal x → IsAmount x
IsTotal-IsAmount x (pos n, e, low) = (n, e)
IsTotal-IsAmount x (negsuc n, e, low) = absurd (omega arith)

written-IsAmount : (x : MathInt) → IsTotal x → IsAmount (written_amount x)
written-IsAmount x t = let (n, e) = IsTotal-IsAmount x t in (n, ap written_amount e)

written_value : (x : MathInt) → int_value (written_amount x) ≡ int_value x
written_value MathInt.nil = refl
written_value (int v) = refl

regroup : (v x r : ℤ) → v +ℤ x +ℤ r ≡ x +ℤ (v +ℤ r)
regroup v x r = omega int_laws

module _ (k : Keeper) (name : Address → String) where
  open k use {address_codec, account_burn_total}

  -- The loop adds amounts, and their sum.
  init_accounts-sum :
      (rs : List AccountBurnRecord) (ks : List Address) (c : Ctx k)
      → Decodes k name ks rs
      → Fresh k name ks c.accounts
      → AreRecords address_codec rs
      → AreAmounts (account_burn_total.entries c.accounts)
      → Ensures
          (λ _ c'.
            AreAmounts (account_burn_total.entries c'.accounts)
            × (sum_totals (account_burn_total.entries c'.accounts)
                ≡ sum_totals (account_burn_total.entries c.accounts) +ℤ sum_records rs))
          (init_accounts k rs c)
  unfolding init_accounts
  init_accounts-sum [] ks c d f t p = (p, omega int_laws)
  init_accounts-sum (r ∷ rs) [] c d f t p = absurd d
  init_accounts-sum (r ∷ rs) (a ∷ ks) c (decoded, named, ne, d) (f, fs) (good, total, t) p =
      let P : Unit {0} → Ctx k → Type 0 = λ _ c'.
        AreAmounts (account_burn_total.entries c'.accounts)
        × (sum_totals (account_burn_total.entries c'.accounts)
            ≡ sum_totals (account_burn_total.entries c.accounts) +ℤ sum_records (r ∷ rs)) in
      >>=-Ensures P _ _ _ λ addr p1.
        let same : a ≡ addr = cc in
        subst
          (λ b.
            Ensures P ((on_accounts (account_burn_total.set b r.total) >> init_accounts k rs) c))
          same
          (>>=-Ensures P _ _ _ λ _ p2.
            let s : account_burn_total.State = (account_burn_total.set a r.total c.accounts).1 in
            let (more, keeps) =
              added a (written_amount r.total) _ _ _
                (account_burn_total.entries-set a r.total c.accounts p2) f in
            Ensures-map P (init_accounts k rs (record c { accounts = s }))
              (λ _ c' (q, e). (
                q,
                e
                    ∙ ap (λ t. t +ℤ sum_records rs)
                        (more
                          ∙ ap (λ x. x +ℤ sum_totals (account_burn_total.entries c.accounts))
                              (written_value r.total))
                    ∙ regroup (int_value r.total)
                        (sum_totals (account_burn_total.entries c.accounts)) (sum_records rs),
              ))
              (init_accounts-sum rs ks (record c { accounts = s }) d
                (Fresh-set k name a r.total c.accounts ks p2 ne fs) t
                (keeps p (written-IsAmount r.total total))))

  abbrev HasSum : List AccountBurnRecord → Unit {0} → Ctx k → Type 0
  HasSum rs _ c' =
      AreAmounts (account_burn_total.entries c'.accounts)
      × (sum_totals (account_burn_total.entries c'.accounts) ≡ sum_records rs)

  -- The loop over an empty collection, after the total is set.
  from_empty :
      (v : MathInt) (rs : List AccountBurnRecord) (ks : List Address) (c : Ctx k)
      → account_burn_total.entries c.accounts ≡ []
      → Decodes k name ks rs
      → Fresh k name ks c.accounts
      → AreRecords address_codec rs
      → Ensures (HasSum rs) ((set_total k v >> init_accounts k rs) c)
  unfolding sum_totals
  from_empty v rs ks c none d f t =
      let p : AreAmounts (account_burn_total.entries c.accounts) = rw none tt in
      let zero_sum : sum_totals (account_burn_total.entries c.accounts) ≡ pos 0 = rw none refl in
      by_total v p zero_sum
    where
      loop :
          (c1 : Ctx k)
          → c1.accounts ≡ c.accounts
          → AreAmounts (account_burn_total.entries c.accounts)
          → sum_totals (account_burn_total.entries c.accounts) ≡ pos 0
          → Ensures (HasSum rs) (init_accounts k rs c1)
      loop c1 same p zero_sum =
          Ensures-map (HasSum rs) (init_accounts k rs c1)
            (λ _ c' (q, e). (
              q,
              e
                  ∙ ap (λ x. sum_totals (account_burn_total.entries x) +ℤ sum_records rs) same
                  ∙ ap (λ x. x +ℤ sum_records rs) zero_sum
                  ∙ omega int_laws,
            ))
            (init_accounts-sum rs ks c1 d (rw same f) t (rw same p))

      by_total :
          (v : MathInt)
          → AreAmounts (account_burn_total.entries c.accounts)
          → sum_totals (account_burn_total.entries c.accounts) ≡ pos 0
          → Ensures (HasSum rs) ((set_total k v >> init_accounts k rs) c)
      by_total MathInt.nil p zero_sum = >>=-Ensures (HasSum rs) _ _ _ λ _ _. loop c refl p zero_sum
      by_total (int v) p zero_sum = >>=-Ensures (HasSum rs) _ _ _ λ _ _.
          loop (record c { total = (k.global_burn_total.set (int v) c.total).1 }) refl p zero_sum

  init_genesis-HasSum :
      (gs : GenesisState) (ks : List Address) (c : Ctx k)
      → account_burn_total.entries c.accounts ≡ []
      → Decodes k name ks gs.account_totals
      → Fresh k name ks c.accounts
      → AreRecords address_codec gs.account_totals
      → Ensures (HasSum gs.account_totals) (init_genesis k gs c)
  unfolding init_genesis
  init_genesis-HasSum gs ks c none d f t = >>=-Ensures (HasSum gs.account_totals) _ _ _ λ _ p1.
      >>=-Ensures (HasSum gs.account_totals) _ _ _ λ _ p2.
        from_empty gs.total gs.account_totals ks
          (record c {
            params = (k.params.set gs.params c.params).1;
            count = (k.global_burn_count.set gs.count c.count).1;
          })
          none d f t

  -- InitGenesis over an empty store, of a genesis state that ValidateGenesis accepts, whose total is the
  -- sum of its records, and whose records have distinct addresses written as the codec writes them,
  -- leaves a state in which the invariant of a chain holds, for what the records and the supply hold
  -- together, and in which the totals of accounts are amounts.
  pub init_genesis-IsSound :
      (gs : GenesisState) (ks : List Address) (c : Ctx k)
      → validate_genesis address_codec gs ≡ ok tt
      → written_amount gs.total ≡ int (sum_records gs.account_totals)
      → k.global_burn_total.get c.total ≡ err not_found
      → account_burn_total.entries c.accounts ≡ []
      → Decodes k name ks gs.account_totals
      → Fresh k name ks c.accounts
      → (init_genesis k gs c).0 ≡ ok tt
      → let c' = (init_genesis k gs c).1 in
        IsSound k
          (sum_records gs.account_totals +ℤ pos (k.bank.supply default_bond_denom c'.bank))
          c'
        × AccountsAreAmounts k c'
  init_genesis-IsSound gs ks c valid is_sum no_total none d f done =
      let (good, total, t) = (validate_genesis_iff address_codec gs).0 valid in
      let (amounts, sums) =
        Ensures-ok (HasSum gs.account_totals) _ (init_genesis-HasSum gs ks c none d f t) done in
      let (has_params, has_count, has_total, perm) =
        Ensures-ok (Loaded k name gs ks) _ (init_genesis-Ensures k name gs ks c no_total none d f)
          done in
      (
        record {
          total = sum_records gs.account_totals;
          is_total = has_total ∙ ap ok is_sum;
          balanced = sym sums;
          conserved = refl;
          rate = written_params gs.params;
          is_rate = has_params;
          valid_rate = rw (written_params-valid gs.params good) good;
        },
        amounts,
      )

-- ===== src/Burn/Keeper/Trackers.antt =====
-- What `updateTrackers` does to the counter, to the global total and to the totals of accounts.
use mono_chain.Prelude.{List, ℕ, ◌+◌, ◌%◌, ◌^◌, ◌≡◌, ◌≢◌, refl, sym, ap, subst, ◌∙◌}
use mono_chain.Sdk.Outcome.{ok, or_if_not_found, Ensures, >>=-Ensures, Ensures-of}
use mono_chain.Sdk.Amounts.{MathInt, zero_int, int_sum, int_sum-written, written_amount, Coin}
use mono_chain.Sdk.Collections.{IsWritten}
use mono_chain.Sdk.Address.{Address}
use mono_chain.Burn.Keeper.{
  Keeper, Ctx, Event, get_global_burn_total, get_account_burn_total, update_trackers, on_accounts,
}

module _ (k : Keeper) where
  -- `v` was added to the trackers on behalf of `a`, and nothing else has changed.
  pub record IsTracked (a : Address) (v : MathInt) (c c' : Ctx k) : Type 0 where
    pub count : ℕ
    pub counted : k.global_burn_count.peek c.count ≡ ok count
    pub counted_next : k.global_burn_count.peek c'.count ≡ ok ((count + 1) % 2 ^ 64)
    pub total : MathInt
    pub total_before : get_global_burn_total k c ≡ ok total
    pub total_after : MathInt
    pub total_sum : int_sum total v ≡ ok total_after
    pub total_next : get_global_burn_total k c' ≡ ok total_after
    pub account : MathInt
    pub account_before : get_account_burn_total k a c ≡ ok account
    pub account_after : MathInt
    pub account_sum : int_sum account v ≡ ok account_after
    pub account_next : get_account_burn_total k a c' ≡ ok account_after
    pub written :
        IsWritten a account_after
          (k.account_burn_total.get a c.accounts)
          (k.account_burn_total.entries c.accounts)
          (k.account_burn_total.entries c'.accounts)
    pub others :
        (b : Address) → b ≢ a → get_account_burn_total k b c' ≡ get_account_burn_total k b c

  abbrev pub Leaves : Address → MathInt → Ctx k → Ctx k → Type 0
  Leaves a v c c' =
      IsTracked a v c c' × (c'.bank ≡ c.bank) × (c'.params ≡ c.params) × (c'.events ≡ c.events)

  pub update_trackers-Ensures :
      (a : Address) (coin : Coin) (c : Ctx k)
      → Ensures (λ _ c'. Leaves a coin.amount c c') (update_trackers k a coin c)
  unfolding update_trackers
  update_trackers-Ensures a coin c =
      let P : Unit {0} → Ctx k → Type 0 = λ _ c'. Leaves a coin.amount c c' in
      >>=-Ensures P _ _ _ λ n p1. >>=-Ensures P _ _ _ λ g p2. >>=-Ensures P _ _ _ λ g' p3.
        >>=-Ensures P _ _ _ λ _ p4. >>=-Ensures P _ _ _ λ w p5. >>=-Ensures P _ _ _ λ w' p6.
          let c' : Ctx k = record c {
            count = (k.global_burn_count.next c.count).1;
            total = (k.global_burn_total.set g' c.total).1;
          } in
          let total_sum = sym (k.math.add_lem g coin.amount) ∙ p3 in
          let account_sum = sym (k.math.add_lem w coin.amount) ∙ p6 in
          let same_g : written_amount g' ≡ g' = int_sum-written g coin.amount g' total_sum in
          let same_w : written_amount w' ≡ w' = int_sum-written w coin.amount w' account_sum in
          Ensures-of P (on_accounts (k.account_burn_total.set a w') c') λ _ p7. (
            record {
              count = n;
              counted = (k.global_burn_count.peek-next c.count p1).0;
              counted_next = (k.global_burn_count.peek-next c.count p1).1;
              total = g;
              total_before = p2;
              total_after = g';
              total_sum = total_sum;
              total_next =
                  ap (λ r. or_if_not_found r zero_int)
                    (k.global_burn_total.get-set g' c.total p4 ∙ ap ok same_g);
              account = w;
              account_before = p5;
              account_after = w';
              account_sum = account_sum;
              account_next =
                  ap (λ r. or_if_not_found r zero_int)
                    (k.account_burn_total.get-set_self a w' c.accounts p7 ∙ ap ok same_w);
              written =
                  subst
                    (λ v.
                      IsWritten a v (k.account_burn_total.get a c.accounts)
                        (k.account_burn_total.entries c.accounts)
                        (k.account_burn_total.entries (k.account_burn_total.set a w' c.accounts).1))
                    same_w (k.account_burn_total.entries-set a w' c.accounts p7);
              others = λ b ne.
                  ap (λ r. or_if_not_found r zero_int)
                    (k.account_burn_total.get-set_ne b a w' c.accounts p7 ne);
            },
            refl,
            refl,
            refl,
          )

  -- The bank has no part in it.
  pub IsTracked-bank :
      {a : Address} {v : MathInt} {c c' : Ctx k} {s : k.bank.State}
      → IsTracked a v (record c { bank = s }) c'
      → IsTracked a v c c'
  IsTracked-bank t = record {
    count = t.count;
    counted = t.counted;
    counted_next = t.counted_next;
    total = t.total;
    total_before = t.total_before;
    total_after = t.total_after;
    total_sum = t.total_sum;
    total_next = t.total_next;
    account = t.account;
    account_before = t.account_before;
    account_after = t.account_after;
    account_sum = t.account_sum;
    account_next = t.account_next;
    written = t.written;
    others = t.others;
  }

  -- Nor have the events.
  pub IsTracked-events :
      {a : Address} {v : MathInt} {c c' : Ctx k} (es : List Event)
      → IsTracked a v c c'
      → IsTracked a v c (record c' { events = es })
  IsTracked-events es t = record {
    count = t.count;
    counted = t.counted;
    counted_next = t.counted_next;
    total = t.total;
    total_before = t.total_before;
    total_after = t.total_after;
    total_sum = t.total_sum;
    total_next = t.total_next;
    account = t.account;
    account_before = t.account_before;
    account_after = t.account_after;
    account_sum = t.account_sum;
    account_next = t.account_next;
    written = t.written;
    others = t.others;
  }

-- ===== src/Burn/Totals.antt =====
-- The totals of accounts, summed up, and how a tracked burn moves the sum.
use mono_chain.Prelude.{◌≡◌, ap, List, [], ◌∷◌, ◌++◌, inl, inr, Bool-cases, ltb}
use mono_chain.Prelude.Int.{ℤ, pos, ◌+ℤ◌, int_laws, magnitude}
use mono_chain.Sdk.Outcome.{Result, ok, or_if_not_found}
use mono_chain.Sdk.Amounts.{MathInt, int, zero_int, int_sum, int_value, int_limit}
use mono_chain.Sdk.Collections.{IsWritten}
use mono_chain.Sdk.Address.{Address}
use mono_chain.Burn.Keeper.{Keeper, Ctx}
use mono_chain.Burn.Keeper.Trackers.{IsTracked}

unfoldable pub sum_totals : List (Address × MathInt) → ℤ
sum_totals [] = pos 0
sum_totals ((a, v) ∷ es) = int_value v +ℤ sum_totals es

pub sum_totals-append :
    (xs ys : List (Address × MathInt)) → sum_totals (xs ++ ys) ≡ sum_totals xs +ℤ sum_totals ys
unfolding sum_totals
sum_totals-append [] ys = omega int_laws
sum_totals-append (x ∷ xs) ys = rw (sum_totals-append xs ys) (omega int_laws)

pub int_sum-int : (a b : ℤ) (c : MathInt) → int_sum (int a) (int b) ≡ ok c → c ≡ int (a +ℤ b)
int_sum-int a b c h = elim (Bool-cases (ltb (magnitude (a +ℤ b)) int_limit)) [
  | inl fits ↦ let e = rw fits at h in cc
  | inr large ↦ let e = rw large at h in cc
]

int_sum-value : (a b c : MathInt) → int_sum a b ≡ ok c → int_value c ≡ int_value a +ℤ int_value b
int_sum-value MathInt.nil b c h = cc
int_sum-value (int a) MathInt.nil c h = cc
int_sum-value (int a) (int b) c h = ap int_value (int_sum-int a b c h)

-- Where the entry under a key goes from `w` to `u`, the sum moves by the difference.
sum_totals-written :
    (a : Address) (u w v : MathInt) (old : Result MathInt) (xs ys : List (Address × MathInt))
    → IsWritten a u old xs ys
    → or_if_not_found old zero_int ≡ ok w
    → int_sum w v ≡ ok u
    → sum_totals ys ≡ sum_totals xs +ℤ int_value v
unfolding sum_totals
sum_totals-written a u w v old xs ys h is_w grown =
    let step = int_sum-value w v u grown in
    elim h.was [
      | inl (absent, e) ↦
          let zero_w : w ≡ zero_int = cc (rw absent at is_w) in
          let value_w : int_value w ≡ pos 0 = ap int_value zero_w in
          rw (h.written, e, sum_totals-append, sum_totals-append, step, value_w) (omega int_laws)
      | inr (w', present, e) ↦
          let same : w ≡ w' = cc (rw present at is_w) in
          let value_w : int_value w ≡ int_value w' = ap int_value same in
          rw (h.written, e, sum_totals-append, sum_totals-append, step, value_w) (omega int_laws)
    ]

module _ (k : Keeper) where
  pub sum_totals-IsTracked :
      (a : Address) (v : MathInt) (c c' : Ctx k)
      → IsTracked k a v c c'
      → sum_totals (k.account_burn_total.entries c'.accounts)
        ≡ sum_totals (k.account_burn_total.entries c.accounts) +ℤ int_value v
  sum_totals-IsTracked a v c c' t =
      sum_totals-written a t.account_after t.account v _ _ _ t.written t.account_before
        t.account_sum

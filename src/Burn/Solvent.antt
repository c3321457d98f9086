-- ===== src/Burn/Solvent.antt =====
-- The totals of accounts are never negative, so that on a chain where all that was ever there fits
-- into 256 bits the trackers can take every burn.
use mono_chain.Prelude.{ℕ, ◌+◌, ◌≤◌, ◌≡◌, refl, sym, ap, ◌∙◌, List, [], ◌∷◌, ◌++◌, inl, inr, arith}
use mono_chain.Prelude.Int.{pos, ◌+ℤ◌, pos_part, int_laws}
use mono_chain.Sdk.Outcome.{err, not_found, Result, ok, or_if_not_found}
use mono_chain.Sdk.Amounts.{int_value, MathInt, int, zero_int, int_sum}
use mono_chain.Sdk.Collections.{IsWritten}
use mono_chain.Sdk.Address.{Address}
use mono_chain.Burn.Totals.{sum_totals, sum_totals-append, int_sum-int}

abbrev pub IsAmount : MathInt → Type 0
IsAmount v = (n : ℕ) × (v ≡ int (pos n))

abbrev pub AreAmounts : List (Address × MathInt) → Type 0
AreAmounts [] = Unit {0}
AreAmounts ((a, v) ∷ es) = IsAmount v × AreAmounts es

AreAmounts-append :
    (xs ys : List (Address × MathInt)) → AreAmounts xs → AreAmounts ys → AreAmounts (xs ++ ys)
AreAmounts-append [] ys p q = q
AreAmounts-append ((a, v) ∷ xs) ys (n, p) q = (n, AreAmounts-append xs ys p q)

append-AreAmounts :
    (xs ys : List (Address × MathInt)) → AreAmounts (xs ++ ys) → AreAmounts xs × AreAmounts ys
append-AreAmounts [] ys p = (tt, p)
append-AreAmounts ((a, v) ∷ xs) ys (n, p) = let (q, r) = append-AreAmounts xs ys p in ((n, q), r)

pub +ℤ-pos : (m n : ℕ) → pos m +ℤ pos n ≡ pos (m + n)
+ℤ-pos m n = omega int_laws

-- The sum of amounts is one, and none of them is more than it.
pub sum_totals-IsAmount :
    (es : List (Address × MathInt)) → AreAmounts es → (m : ℕ) × (sum_totals es ≡ pos m)
unfolding sum_totals
sum_totals-IsAmount [] p = (0, refl)
sum_totals-IsAmount ((a, v) ∷ es) ((n, is_n), p) =
    let (m, is_m) = sum_totals-IsAmount es p in (n + m, rw (is_n, is_m) (+ℤ-pos n m))

entry_le :
    (a : Address) (w : MathInt) (xs ys : List (Address × MathInt)) (m : ℕ)
    → AreAmounts (xs ++ ((a, w) ∷ ys))
    → sum_totals (xs ++ ((a, w) ∷ ys)) ≡ pos m
    → (n : ℕ) × (w ≡ int (pos n)) × (n ≤ m)
unfolding sum_totals
entry_le a w [] ys m ((n, is_n), p) e =
    let (r, is_r) = sum_totals-IsAmount ys p in
    let total : pos (n + r) ≡ pos m = sym (+ℤ-pos n r) ∙ (rw (is_n, is_r) at e) in
    (n, is_n, omega (arith, ap pos_part total))
entry_le a w ((b, v) ∷ xs) ys m ((x, is_x), p) e =
    let (r, is_r) = sum_totals-IsAmount (xs ++ ((a, w) ∷ ys)) p in
    let (n, is_n, low) = entry_le a w xs ys r p is_r in
    let total : pos (x + r) ≡ pos m = sym (+ℤ-pos x r) ∙ (rw (is_x, is_r) at e) in
    (n, is_n, omega (arith, ap pos_part total))

grown-IsAmount :
    (m n : ℕ) (w u : MathInt) → w ≡ int (pos m) → int_sum w (int (pos n)) ≡ ok u → IsAmount u
grown-IsAmount m n w u is_w grown =
    (m + n, int_sum-int (pos m) (pos n) u (rw is_w at grown) ∙ ap int (+ℤ-pos m n))

-- An entry that grows by an amount.
pub written-AreAmounts :
    (a : Address) (n : ℕ) (w u : MathInt) (old : Result MathInt) (xs ys : List (Address × MathInt))
    → IsWritten a u old xs ys
    → or_if_not_found old zero_int ≡ ok w
    → int_sum w (int (pos n)) ≡ ok u
    → AreAmounts xs
    → AreAmounts ys
written-AreAmounts a n w u old xs ys h is_w grown p = elim h.was [
  | inl (absent, e) ↦
      let zero_w : w ≡ zero_int = cc (rw absent at is_w) in
      let (before, after) = append-AreAmounts h.before h.after (rw e at p) in
      rw h.written (
        AreAmounts-append h.before ((a, u) ∷ h.after) before
          (grown-IsAmount 0 n w u zero_w grown, after))
  | inr (w', present, e) ↦
      let same : w ≡ w' = cc (rw present at is_w) in
      let (before, ((m, is_m), after)) =
        append-AreAmounts h.before ((a, w') ∷ h.after) (rw e at p) in
      rw h.written (
        AreAmounts-append h.before ((a, u) ∷ h.after) before
          (grown-IsAmount m n w u (same ∙ is_m) grown, after))
]

-- A new entry.
pub added :
    (a : Address) (v : MathInt) (old : Result MathInt) (xs ys : List (Address × MathInt))
    → IsWritten a v old xs ys
    → old ≡ err not_found
    → (sum_totals ys ≡ int_value v +ℤ sum_totals xs) × (AreAmounts xs → IsAmount v → AreAmounts ys)
unfolding sum_totals
added a v old xs ys h absent = elim h.was [
  | inr (w, present, e) ↦ absurd (cc (present, absent))
  | inl (_, e) ↦ (
    rw (h.written, e, sum_totals-append, sum_totals-append) (omega int_laws),
    λ p is_v.
        let (before, after) = append-AreAmounts h.before h.after (rw e at p) in
        rw h.written (AreAmounts-append h.before ((a, v) ∷ h.after) before (is_v, after)),
  )
]

-- What is read of an entry that could be written is an amount that the sum covers.
pub read_le :
    (a : Address) (u : MathInt) (old : Result MathInt) (xs ys : List (Address × MathInt)) (m : ℕ)
    → IsWritten a u old xs ys
    → AreAmounts xs
    → sum_totals xs ≡ pos m
    → (n : ℕ) × (or_if_not_found old zero_int ≡ ok (int (pos n))) × (n ≤ m)
read_le a u old xs ys m h p is_m = elim h.was [
  | inl (absent, e) ↦ (0, rw absent, omega arith)
  | inr (w, present, e) ↦
      let (n, is_n, low) = entry_le a w h.before h.after m (rw e at p) (rw e at is_m) in
      (n, rw present (ap ok is_n), low)
]

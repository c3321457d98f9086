-- ===== src/Cmd/ChainId/Grammar.antt =====
-- The form of an identifier, and the regular expression `evmosChainID` against it.
use mono_chain.Prelude.{
  ℕ, ◌≤◌, ◌≡◌, refl, sym, ap, Bool, true, false, [], ◌∷◌, ◌++◌, All, Bool-cases, arith, inl, inr,
}
use mono_chain.Sdk.Outcome.{ok, Ensures, >>=-Ensures, ◌>>=◌}
use mono_chain.Cmd.Text.{Text, byte_length, is_lower, is_digit, decimal_value}
use mono_chain.Cmd.ChainId.{
  prefix, after_prefix, is_name, is_number, group, separator, at_end, evmos_chain_id,
}

abbrev pub In : (ℕ → Bool) → Text → Type 0
In p = All (λ c. p c ≡ true)

-- The text is a name of lower-case letters, an underscore, a number, a dash and another number,
-- neither of which starts with a zero, it has 48 bytes at most, and the first number is `n`.
pub record IsChainId (t : Text) (n : ℕ) : Type 0 where
  pub name : Text
  pub eip155 : Text
  pub epoch : Text
  pub parts : t ≡ name ++ (95 ∷ (eip155 ++ (45 ∷ epoch)))
  pub named : is_name name ≡ true
  pub lower : In is_lower name
  pub number : is_number eip155 ≡ true
  pub digits : In is_digit eip155
  pub epoch_number : is_number epoch ≡ true
  pub epoch_digits : In is_digit epoch
  pub short : byte_length t ≤ 48
  pub value : decimal_value eip155 ≡ n

module _ (p : ℕ → Bool) where
  prefix_split : (t : Text) → prefix p t ++ after_prefix p t ≡ t
  unfolding prefix after_prefix
  prefix_split [] = refl
  prefix_split (c ∷ cs) = elim (Bool-cases (p c)) [
    | inl fits ↦ rw fits (ap (λ t. c ∷ t) (prefix_split cs))
    | inr other ↦ rw other
  ]

  prefix-In : (t : Text) → In p (prefix p t)
  unfolding prefix
  prefix-In [] = tt
  prefix-In (c ∷ cs) = elim (Bool-cases (p c)) [
    | inl fits ↦ rw fits (fits, prefix-In cs)
    | inr other ↦ rw other tt
  ]

  abbrev Stops : Text → Type 0
  Stops [] = Unit {0}
  Stops (c ∷ cs) = p c ≡ false

  stopped : (rest : Text) → Stops rest → (prefix p rest ≡ []) × (after_prefix p rest ≡ rest)
  unfolding prefix after_prefix
  stopped [] s = (refl, refl)
  stopped (c ∷ cs) s = (rw s, rw s)

  prefix_append :
      (a rest : Text)
      → In p a
      → Stops rest
      → (prefix p (a ++ rest) ≡ a) × (after_prefix p (a ++ rest) ≡ rest)
  unfolding prefix after_prefix
  prefix_append [] rest i s = stopped rest s
  prefix_append (c ∷ cs) rest (fits, i) s =
      let (e, r) = prefix_append cs rest i s in (rw (fits, e), rw (fits, r))

group-ok :
    (p : ℕ → Bool) (accepts : Text → Bool) (t : Text) {a : Text}
    → (group p accepts t).0 ≡ ok a
    → (t ≡ a ++ (group p accepts t).1) × (accepts a ≡ true) × In p a
unfolding group
group-ok p accepts t {a} h = elim (Bool-cases (accepts (prefix p t))) [
  | inl fits ↦
      let e : ok (prefix p t) ≡ ok a = rw fits at h in
      let same : prefix p t ≡ a = cc e in
      rw (← same) (rw fits (sym (prefix_split p t)), fits, prefix-In p t)
  | inr other ↦ absurd (ground (arith, other))
]

separator-ok : (c : ℕ) (t : Text) → (separator c t).0 ≡ ok tt → t ≡ c ∷ (separator c t).1
unfolding separator
separator-ok c [] h = absurd (ground arith)
separator-ok c (d ∷ ds) h = let same : d ≡ c = ground arith in ap (λ x. x ∷ ds) same

at_end-ok : (t : Text) → (at_end t).0 ≡ ok tt → t ≡ []
unfolding at_end
at_end-ok [] h = refl
at_end-ok (c ∷ cs) h = absurd (ground arith)

group_append :
    (p : ℕ → Bool) (accepts : Text → Bool) (a rest : Text)
    → accepts a ≡ true
    → In p a
    → Stops p rest
    → group p accepts (a ++ rest) ≡ (ok a, rest)
unfolding group
group_append p accepts a rest fits i s = let (e, r) = prefix_append p a rest i s in rw (e, r, fits)

append_nil : (t : Text) → t ++ [] ≡ t
append_nil [] = refl
append_nil (c ∷ cs) = ap (λ x. c ∷ x) (append_nil cs)

joined :
    (t r1 r2 r3 r4 r5 name eip155 epoch : Text)
    → t ≡ name ++ r1
    → r1 ≡ 95 ∷ r2
    → r2 ≡ eip155 ++ r3
    → r3 ≡ 45 ∷ r4
    → r4 ≡ epoch ++ r5
    → r5 ≡ []
    → t ≡ name ++ (95 ∷ (eip155 ++ (45 ∷ epoch)))
joined t r1 r2 r3 r4 r5 name eip155 epoch e1 e2 e3 e4 e5 e6 = cc (append_nil epoch)

pub chain_id-Ensures :
    (t : Text)
    → Ensures
        (λ groups rest.
          (t ≡ groups.0 ++ (95 ∷ (groups.1 ++ (45 ∷ groups.2))))
          × (is_name groups.0 ≡ true)
          × In is_lower groups.0
          × (is_number groups.1 ≡ true)
          × In is_digit groups.1
          × (is_number groups.2 ≡ true)
          × In is_digit groups.2)
        (evmos_chain_id t)
unfolding evmos_chain_id
chain_id-Ensures t =
    let P : (Text × Text × Text) → Text → Type 0 = (λ groups rest.
      (t ≡ groups.0 ++ (95 ∷ (groups.1 ++ (45 ∷ groups.2))))
      × (is_name groups.0 ≡ true)
      × In is_lower groups.0
      × (is_number groups.1 ≡ true)
      × In is_digit groups.1
      × (is_number groups.2 ≡ true)
      × In is_digit groups.2) in
    >>=-Ensures P _ _ _ λ name p1. >>=-Ensures P _ _ _ λ _ p2. >>=-Ensures P _ _ _ λ eip155 p3.
      >>=-Ensures P _ _ _ λ _ p4. >>=-Ensures P _ _ _ λ epoch p5. >>=-Ensures P _ _ _ λ _ p6.
        let (e1, named, lower) = group-ok is_lower is_name t p1 in
        let (e3, number, digits) = group-ok is_digit is_number _ p3 in
        let (e5, epoch_number, epoch_digits) = group-ok is_digit is_number _ p5 in
        (
          joined t _ _ _ _ _ name eip155 epoch e1 (separator-ok 95 _ p2) e3 (separator-ok 45 _ p4)
              e5 (at_end-ok _ p6),
          named,
          lower,
          number,
          digits,
          epoch_number,
          epoch_digits,
        )

pub chain_id_matches :
    (name eip155 epoch : Text)
    → is_name name ≡ true
    → In is_lower name
    → is_number eip155 ≡ true
    → In is_digit eip155
    → is_number epoch ≡ true
    → In is_digit epoch
    → evmos_chain_id (name ++ (95 ∷ (eip155 ++ (45 ∷ epoch)))) ≡ (ok (name, eip155, epoch), [])
unfolding evmos_chain_id ◌>>=◌ separator at_end
chain_id_matches name eip155 epoch named lower number digits epoch_number epoch_digits =
    let g1 = group_append is_lower is_name name (95 ∷ (eip155 ++ (45 ∷ epoch))) named lower refl in
    let g2 = group_append is_digit is_number eip155 (45 ∷ epoch) number digits refl in
    let g3 : group is_digit is_number epoch ≡ (ok epoch, []) =
      rw (append_nil epoch) at
        (group_append is_digit is_number epoch [] epoch_number epoch_digits tt) in
    rw (g1, g2, g3)

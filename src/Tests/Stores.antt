-- ===== src/Tests/Stores.antt =====
-- Collections in memory: an optional value, a number, a list of pairs.
use mono_chain.Prelude.{
  ℕ, ◌+◌, ◌%◌, ◌^◌, ◌≡◌, ◌≢◌, refl, ap, inl, inr, List, [], ◌∷◌, Option, none, some, bytes_eq,
  bytes_eq→eq, bytes_eq_self, Bool-cases, if◌then◌else◌,
}
use mono_chain.Sdk.Outcome.{not_found, Result, ok, err}
use mono_chain.Sdk.Collections.{Item, Sequence, IsWritten, Map}
use mono_chain.Sdk.Address.{Address}

abbrev found {ℓ} : {V : Type ℓ} → Option V → Result V
found none = err not_found
found (some v) = ok v

abbrev pub option_item : (V : Type 0) (normal : V → V) → Item V normal
option_item V normal = record {
  State = Option V;
  get = found;
  set = λ v s. (ok tt, some (normal v));
  get-set = λ v s h. refl;
}

pub next_count :
    (s : ℕ) {n : ℕ} → ok s ≡ ok n → (ok s ≡ ok n) × (ok ((s + 1) % 2 ^ 64) ≡ ok ((n + 1) % 2 ^ 64))
next_count s h = (h, cc)

abbrev pub number_sequence : Sequence
number_sequence = record {
  State = ℕ;
  peek = λ s. ok s;
  next = λ s. (ok s, (s + 1) % 2 ^ 64);
  set = λ n s. (ok tt, n);
  peek-next = next_count;
  peek-set = λ n s h. refl;
}

module _ {V : Type 0} where
  abbrev look_up : Address → List (Address × V) → Result V
  look_up a [] = err not_found
  look_up a ((b, v) ∷ es) = if bytes_eq a b then ok v else look_up a es

  abbrev put : Address → V → List (Address × V) → List (Address × V)
  put a v [] = (a, v) ∷ []
  put a v ((b, w) ∷ es) = if bytes_eq a b then (a, v) ∷ es else (b, w) ∷ put a v es

  pub look_up-put_self :
      (a : Address) (v : V) (es : List (Address × V)) → look_up a (put a v es) ≡ ok v
  look_up-put_self a v [] = rw bytes_eq_self
  look_up-put_self a v ((b, w) ∷ es) = elim (Bool-cases (bytes_eq a b)) [
    | inl same ↦ rw (same, bytes_eq_self)
    | inr other ↦ rw (other, other) (look_up-put_self a v es)
  ]

  pub look_up-put_ne :
      (j a : Address) (v : V) (es : List (Address × V))
      → j ≢ a
      → look_up j (put a v es) ≡ look_up j es
  look_up-put_ne j a v [] ne = elim (Bool-cases (bytes_eq j a)) [
    | inl same ↦ absurd (ne (bytes_eq→eq j a same))
    | inr other ↦ rw other
  ]
  look_up-put_ne j a v ((b, w) ∷ es) ne = elim (Bool-cases (bytes_eq a b)) [
    | inl same ↦ elim (Bool-cases (bytes_eq j a)) [
      | inl e ↦ absurd (ne (bytes_eq→eq j a e))
      | inr other ↦ let ab = bytes_eq→eq a b same in rw (same, other, ← ab, other)
    ]
    | inr other ↦ elim (Bool-cases (bytes_eq j b)) [
      | inl e ↦ rw (other, e)
      | inr e ↦ rw (other, e) (look_up-put_ne j a v es ne)
    ]
  ]

  pub put-IsWritten :
      (a : Address) (v : V) (es : List (Address × V)) → IsWritten a v (look_up a es) es (put a v es)
  put-IsWritten a v [] = record { before = []; after = []; written = refl; was = inl (refl, refl) }
  put-IsWritten a v ((b, w) ∷ es) = elim (Bool-cases (bytes_eq a b)) [
    | inl same ↦
        let ab = bytes_eq→eq a b same in
        record { before = []; after = es; written = rw same; was = inr (w, rw same, rw ab) }
    | inr other ↦
        let i = put-IsWritten a v es in
        record {
          before = (b, w) ∷ i.before;
          after = i.after;
          written = rw other (ap (λ (l : List (Address × V)). (b, w) ∷ l) i.written);
          was = elim i.was [
            | inl (e, p) ↦ inl (rw other e, ap (λ (l : List (Address × V)). (b, w) ∷ l) p)
            | inr (u, e, p) ↦ inr (u, rw other e, ap (λ (l : List (Address × V)). (b, w) ∷ l) p)
          ];
        }
  ]

  abbrev pub pair_map : (normal : V → V) → Map Address V normal
  pair_map normal = record {
    State = List (Address × V);
    get = look_up;
    set = λ a v es. (ok tt, put a (normal v) es);
    entries = λ es. es;
    get-set_self = λ a v es h. look_up-put_self a (normal v) es;
    get-set_ne = λ j a v es h ne. look_up-put_ne j a (normal v) es ne;
    entries-set = λ a v es h. put-IsWritten a (normal v) es;
  }

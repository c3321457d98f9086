-- ===== src/Sdk/Collections.antt =====
-- cosmossdk.io/collections: the three collections that the keepers hold. Each has its own key
-- prefix, so each has a state of its own.
use mono_chain.Prelude.{ℕ, ◌+◌, ◌%◌, ◌^◌, ◌≡◌, ◌≢◌, ◌⊎◌, List, ◌∷◌, ◌++◌}
use mono_chain.Sdk.Outcome.{not_found, Result, ok, err, Action}

-- `collections.Item`, with a codec that reads a stored `v` back as `normal v`.
pub record Item (V : Type 0) (normal : V → V) : Type 1 where
  pub State : Type 0
  pub get : State → Result V
  pub set : V → Action State (Unit {0})
  pub get-set : (v : V) (s : State) → (set v s).0 ≡ ok tt → get (set v s).1 ≡ ok (normal v)

-- `collections.Sequence`, a uint64 counter.
pub record Sequence : Type 1 where
  pub State : Type 0
  pub peek : State → Result ℕ
  pub next : Action State ℕ
  pub set : ℕ → Action State (Unit {0})
  pub peek-next :
      (s : State) {n : ℕ}
      → (next s).0 ≡ ok n
      → (peek s ≡ ok n) × (peek (next s).1 ≡ ok ((n + 1) % 2 ^ 64))
  pub peek-set : (n : ℕ) (s : State) → (set n s).0 ≡ ok tt → peek (set n s).1 ≡ ok n

-- What writing `v` under a key does to the entries: one pair is added or replaced where it stands.
pub record IsWritten {K V : Type 0} (k : K) (v : V) (old : Result V) (xs ys : List (K × V))
    : Type 0 where
  pub before : List (K × V)
  pub after : List (K × V)
  pub written : ys ≡ before ++ ((k, v) ∷ after)
  pub was :
      ((old ≡ err not_found) × (xs ≡ before ++ after))
      ⊎ ((w : V) × (old ≡ ok w) × (xs ≡ before ++ ((k, w) ∷ after)))

-- `collections.Map`, with a codec as that of an `Item`; `entries` are the pairs that `Walk` visits with
-- no range, in its order.
pub record Map (K V : Type 0) (normal : V → V) : Type 1 where
  pub State : Type 0
  pub get : K → State → Result V
  pub set : K → V → Action State (Unit {0})
  pub entries : State → List (K × V)
  pub get-set_self :
      (k : K) (v : V) (s : State) → (set k v s).0 ≡ ok tt → get k (set k v s).1 ≡ ok (normal v)
  pub get-set_ne :
      (j k : K) (v : V) (s : State) → (set k v s).0 ≡ ok tt → j ≢ k → get j (set k v s).1 ≡ get j s
  pub entries-set :
      (k : K) (v : V) (s : State)
      → (set k v s).0 ≡ ok tt
      → IsWritten k (normal v) (get k s) (entries s) (entries (set k v s).1)

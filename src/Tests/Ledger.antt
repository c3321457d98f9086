-- ===== src/Tests/Ledger.antt =====
-- A bank in memory: balances and a supply, of every denomination.
use mono_chain.Prelude.{
  ℕ, ◌+◌, ◌-◌, ◌≤◌, ◌≡◌, refl, ◌⊎◌, inl, inr, Bool, true, ◌&&◌, String, List, [], ◌∷◌, leb, str_eq,
  eq_iff, bytes_eq, bytes_eq→eq, arith, Bool-cases, if◌then◌else◌,
}
use mono_chain.Prelude.Int.{pos}
use mono_chain.Sdk.Outcome.{ok, err, library, Action}
use mono_chain.Sdk.Amounts.{int, Coin, amount_of}
use mono_chain.Sdk.Bank.{at, Bank}
use mono_chain.Sdk.Address.{Address}

pub record Funds : Type 0 where
  pub balance : Address → String → ℕ
  pub supply : String → ℕ

-- `held` covers the whole list in the denomination of each coin of `cs`.
covers_each : (String → ℕ) → List Coin → List Coin → Bool
covers_each held whole [] = true
covers_each held whole (c ∷ cs) =
    leb (amount_of c.denom whole) (held c.denom) && covers_each held whole cs

covers_each_sound :
    (held : String → ℕ) (whole cs : List Coin)
    → covers_each held whole cs ≡ true
    → (d : String) → (amount_of d cs ≡ 0) ⊎ (amount_of d whole ≤ held d)
unfolding covers_each
covers_each_sound held whole [] h d = inl refl
covers_each_sound held whole (c ∷ cs) h d = elim (Bool-cases (str_eq c.denom d)) [
  | inl same ↦ let e = (eq_iff c.denom d).0 same in inr (rw (← e) (ground arith))
  | inr other ↦ elim (covers_each_sound held whole cs (ground arith) d) [
    | inl none ↦ inl (rw other (omega arith))
    | inr fits ↦ inr fits
  ]
]

covers_each_complete :
    (held : String → ℕ) (whole cs : List Coin)
    → ((d : String) → amount_of d whole ≤ held d)
    → covers_each held whole cs ≡ true
unfolding covers_each
covers_each_complete held whole [] h = refl
covers_each_complete held whole (c ∷ cs) h =
    ground (arith, h c.denom, covers_each_complete held whole cs h)

covered : (String → ℕ) → List Coin → Bool
covered held cs = covers_each held cs cs

covered-le :
    (held : String → ℕ) (cs : List Coin)
    → covered held cs ≡ true
    → (d : String) → amount_of d cs ≤ held d
unfolding covered
covered-le held cs h d = elim (covers_each_sound held cs cs h d) [
  | inl none ↦ omega arith
  | inr fits ↦ fits
]

le-covered :
    (held : String → ℕ) (cs : List Coin)
    → ((d : String) → amount_of d cs ≤ held d)
    → covered held cs ≡ true
unfolding covered
le-covered held cs h = covers_each_complete held cs cs h

abbrev pub named : String → Address
named m = if str_eq m "burn" then 1 ∷ [] else if str_eq m "fee_collector" then 2 ∷ [] else 3 ∷ []

abbrev moved : Address → Address → List Coin → Funds → Funds
moved a b cs s = record s {
  balance = λ x d. s.balance x d + at b (amount_of d cs) x - at a (amount_of d cs) x;
}

unfoldable pub send : Address → Address → List Coin → Action Funds (Unit {0})
unfolding covered covers_each
send a b cs s =
    if covered (s.balance a) cs
    then (ok tt, moved a b cs s)
    else (err (library "insufficient funds"), s)

-- What leaves an address is there.
at_le :
    (a : Address) (cs : List Coin) (s : Funds)
    → covered (s.balance a) cs ≡ true
    → (x : Address) (d : String) → at a (amount_of d cs) x ≤ s.balance x d
at_le a cs s h x d = elim (Bool-cases (bytes_eq x a)) [
  | inl same ↦ rw same (rw (bytes_eq→eq x a same) (covered-le (s.balance a) cs h d))
  | inr other ↦ rw other (omega arith)
]

pub send_moves :
    (a b : Address) (cs : List Coin) (s : Funds)
    → (send a b cs s).0 ≡ ok tt
    → (x : Address) (d : String)
    → let s' = (send a b cs s).1 in
      (s'.balance x d + at a (amount_of d cs) x ≡ s.balance x d + at b (amount_of d cs) x)
      × (s'.supply d ≡ s.supply d)
unfolding send
send_moves a b cs s h x d = elim (Bool-cases (covered (s.balance a) cs)) [
  | inl fits ↦ let low = at_le a cs s fits x d in rw fits (omega arith, refl)
  | inr short ↦ absurd (ground (arith, short))
]

unfoldable pub destroy : Address → List Coin → Action Funds (Unit {0})
unfolding covered covers_each
destroy a cs s =
    if covered (s.balance a) cs && covered s.supply cs
    then (
      ok tt,
      record {
        balance = λ x d. s.balance x d - at a (amount_of d cs) x;
        supply = λ d. s.supply d - amount_of d cs;
      },
    )
    else (err (library "insufficient funds"), s)

pub destroy_destroys :
    (a : Address) (cs : List Coin) (s : Funds)
    → (destroy a cs s).0 ≡ ok tt
    → (x : Address) (d : String)
    → let s' = (destroy a cs s).1 in
      (s'.balance x d + at a (amount_of d cs) x ≡ s.balance x d)
      × (s'.supply d + amount_of d cs ≡ s.supply d)
unfolding destroy
destroy_destroys a cs s h x d = elim (Bool-cases (covered (s.balance a) cs)) [
  | inl fits ↦ elim (Bool-cases (covered s.supply cs)) [
    | inl backed ↦
        let low = at_le a cs s fits x d in
        let less = covered-le s.supply cs backed d in rw (fits, backed) (omega arith, omega arith)
    | inr short ↦ absurd (ground (arith, fits, short))
  ]
  | inr short ↦ absurd (ground (arith, short))
]

pub send-succeeds :
    (a b : Address) (cs : List Coin) (s : Funds)
    → ((d : String) → amount_of d cs ≤ s.balance a d)
    → (send a b cs s).0 ≡ ok tt
unfolding send
send-succeeds a b cs s h = rw (le-covered (s.balance a) cs h)

pub destroy-succeeds :
    (a : Address) (cs : List Coin) (s : Funds)
    → ((d : String) → amount_of d cs ≤ s.balance a d)
    → ((d : String) → amount_of d cs ≤ s.supply d)
    → (destroy a cs s).0 ≡ ok tt
unfolding destroy
destroy-succeeds a cs s h b = rw (le-covered (s.balance a) cs h, le-covered s.supply cs b)

abbrev pub memory_bank : Bank
memory_bank = record {
  State = Funds;
  balance = λ a d s. s.balance a d;
  supply = λ d s. s.supply d;
  spendable = λ a d s. s.balance a d;
  spendable_le = λ a d s. omega arith;
  module_address = named;
  registered = λ m s. Unit {0};
  burner = λ m s. Unit {0};
  get_balance = λ a d s. record { denom = d; amount = int (pos (s.balance a d)) };
  get_balance_lem = λ a d s. refl;
  account_to_module = λ a m. send a (named m);
  module_to_module = λ l m. send (named l) (named m);
  burn_coins = λ m. destroy (named m);
  account_to_module_moves = λ a m. send_moves a (named m);
  module_to_module_moves = λ l m. send_moves (named l) (named m);
  burn_coins_destroys = λ m. destroy_destroys (named m);
  account_to_module_succeeds = λ a m cs s _ h. (send-succeeds a (named m) cs s h, λ _. tt);
  module_to_module_succeeds = λ l m cs s _ _ h. (send-succeeds (named l) (named m) cs s h, λ _. tt);
  burn_coins_succeeds = λ m cs s _ h b. destroy-succeeds (named m) cs s h b;
}

-- ===== src/Cmd/MultiNode/Ports.antt =====
-- What the maps of the arguments hold, and the ports that the nodes listen on.
use mono_chain.Prelude.{
  ℕ, zero, suc, ◌+◌, ◌*◌, ◌≤◌, ◌<◌, ◌≡◌, refl, ap, ◌⊎◌, inl, inr, Option, none, some, List, [], ◌∷◌,
  map, Option-cases, Bool, true, false, ◌&&◌, not, arith,
}
use mono_chain.Cmd.Decimal.{itoa}
use mono_chain.Prelude.Int.{ℤ, ◌-ℤ◌, pos, negsuc, pos_part, ltb_ℤ}
use mono_chain.Sdk.Outcome.{ok, err, panicked}
use mono_chain.Sdk.Amounts.{Coin, int}
use mono_chain.Burn.Types.{default_bond_denom}
use mono_chain.Cmd.Text.{Text}
use mono_chain.Cmd.Testnet.{split_commas}
use mono_chain.Cmd.MultiNode.{Env}
use mono_chain.Cmd.MultiNode.Args.{
  IntMap, on_some, no_keys, put, text_at, Flags, InitArgs, default_port, default_ports, given_ports,
  parse_ports, args_of, given_stakes, parse_args,
}

-- The entry of a list under a number.
abbrev pub get_elem? : {A : Type 0} → List A → ℕ → Option A
get_elem? [] i = none
get_elem? (x ∷ xs) zero = some x
get_elem? (x ∷ xs) (suc i) = get_elem? xs i

default_ports-below : (left i j : ℕ) (m : IntMap Text) → j < i → default_ports left i m j ≡ m j
unfolding default_ports
default_ports-below zero i j m h = refl
default_ports-below (suc left) i j m h =
    ground (arith, default_ports-below left (suc i) j (put i (default_port i) m))

default_ports_lem :
    (left i j : ℕ) (m : IntMap Text)
    → i ≤ j
    → j < i + left
    → default_ports left i m j ≡ some (default_port j)
unfolding default_ports
default_ports_lem zero i j m h lt = absurd (omega arith)
default_ports_lem (suc left) i j m h lt = ground (
  arith,
  default_ports-below left (suc i) j (put i (default_port i) m),
  default_ports_lem left (suc i) j (put i (default_port i) m),
)

module _ {A : Type 0} where
  given_ports-below :
      (xs : List A) (top j : ℕ) (m : IntMap A) → j < top → given_ports xs top m j ≡ m j
  unfolding given_ports
  given_ports-below [] top j m h = refl
  given_ports-below (x ∷ xs) top j m h =
      ground (arith, given_ports-below xs (suc top) j (put top x m))

  -- What is stored behind `top` is the list.
  given_ports_lem :
      (xs : List A) (top i j : ℕ) (m : IntMap A)
      → j ≡ top + i
      → ((n : ℕ) → top ≤ n → m n ≡ none)
      → given_ports xs top m j ≡ get_elem? xs i
  unfolding given_ports
  given_ports_lem [] top i j m e h = h j (omega arith)
  given_ports_lem (x ∷ xs) top zero j m e h =
      ground (arith, given_ports-below xs (suc top) j (put top x m))
  given_ports_lem (x ∷ xs) top (suc i) j m e h =
      given_ports_lem xs (suc top) i j (put top x m) (omega arith) (λ n lt. ground (arith, h n))

module _ (env : Env) where
  -- The amounts of a list that are numbers.
  abbrev pub accepted : List Text → List ℤ
  accepted [] = []
  accepted (t ∷ ts) = on_some (env.int_from_string t) (accepted ts) λ a. a ∷ accepted ts

  abbrev pub no_negative : List ℤ → Bool
  no_negative [] = true
  no_negative (a ∷ amounts) = not (ltb_ℤ a (pos 0)) && no_negative amounts

  abbrev pub bond_coin : ℤ → Coin
  bond_coin a = record { denom = default_bond_denom; amount = int a }

  abbrev NoKey : ℕ → IntMap Coin → Type 0
  NoKey top m = (n : ℕ) → top ≤ n → m n ≡ none

  new_bond_coin :
      (a : ℤ)
      → ((ltb_ℤ a (pos 0) ≡ true) × (env.math.new_coin default_bond_denom (int a) ≡ err panicked))
        ⊎ ((ltb_ℤ a (pos 0) ≡ false)
            × (env.math.new_coin default_bond_denom (int a) ≡ ok (bond_coin a)))
  new_bond_coin (pos n) = inr (ground arith, rw (env.math.new_coin_lem, env.math.alyth_valid))
  new_bond_coin (negsuc n) = inl (ground arith, rw env.math.new_coin_lem)

  given_stakes_lem :
      (ts : List Text) (top : ℕ) (m : IntMap Coin)
      → ((no_negative (accepted ts) ≡ false) × (given_stakes env ts top m ≡ err panicked))
        ⊎ ((no_negative (accepted ts) ≡ true)
            × (given_stakes env ts top m ≡ ok (given_ports (map bond_coin (accepted ts)) top m)))
  unfolding given_stakes given_ports
  given_stakes_lem [] top m = inr (refl, refl)
  given_stakes_lem (t ∷ ts) top m = elim (Option-cases (env.int_from_string t)) [
    | inl e ↦ rw (accepted, given_stakes, e) (given_stakes_lem ts top m)
    | inr (a, e) ↦ elim (new_bond_coin a) [
      | inl (less, bad) ↦ inl (rw (accepted, no_negative, e, less), rw (given_stakes, e, bad))
      | inr (more, good) ↦
          rw (accepted, given_stakes, e, no_negative, more, good, given_ports)
            (given_stakes_lem ts (suc top) (put top (bond_coin a) m))
    ]
  ]

  -- The ports of the nodes: 26657, 26654 and so on where no list is given, else those of the list.
  abbrev pub Listed : Text → ℤ → IntMap Text → Type 0
  Listed [] n ports = (i : ℕ) → i < pos_part n → text_at (ports i) ≡ itoa (pos 26657 -ℤ pos (3 * i))
  Listed (c ∷ cs) n ports = (i : ℕ) → ports i ≡ get_elem? (split_commas (c ∷ cs)) i

  parse_ports-Listed : (t : Text) (n : ℤ) → Listed t n (parse_ports t n)
  parse_ports-Listed [] n =
      λ i h. ap text_at (default_ports_lem (pos_part n) 0 i no_keys (omega arith) (omega arith))
  parse_ports-Listed (c ∷ cs) n =
      λ i. given_ports_lem (split_commas (c ∷ cs)) 0 i i no_keys (omega arith) (λ n h. refl)

  -- The arguments of the command are made unless a stake is negative, which panics. The stakes are
  -- the amounts that are numbers, from validator zero on with no gap: one that is not a number has
  -- no default. The ports are those of the list, or where that is empty 26657 - 3 i for validator i.
  pub parse_args_cases :
      (f : Flags)
      → let stakes = accepted (split_commas f.validators_stake_amount) in
        ((no_negative stakes ≡ false) × (parse_args env f ≡ err panicked))
        ⊎ ((no_negative stakes ≡ true)
            × ((args : InitArgs) × (parse_args env f ≡ ok args)
                × ((i : ℕ) → args.validators_stakes_amount i ≡ get_elem? (map bond_coin stakes) i)
                × Listed f.list_ports f.num_validators args.ports))
  unfolding parse_args
  parse_args_cases f =
      let stakes : List Text = split_commas f.validators_stake_amount in
      elim (given_stakes_lem stakes 0 no_keys) [
        | inl (bad, e) ↦ inl (bad, rw (parse_args, e))
        | inr (good, e) ↦ inr (
          good,
          (
            args_of f (given_ports (map bond_coin (accepted stakes)) 0 no_keys),
            rw (parse_args, e) refl,
            (λ i.
                given_ports_lem (map bond_coin (accepted stakes)) 0 i i no_keys (omega arith)
                  (λ n h. refl)),
            parse_ports-Listed f.list_ports f.num_validators,
          ),
        )
      ]

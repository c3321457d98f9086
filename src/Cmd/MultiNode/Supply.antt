-- ===== src/Cmd/MultiNode/Supply.antt =====
-- The supply of the genesis state of x/bank.
use mono_chain.Prelude.{ℕ, ◌+◌, ◌≡◌, refl, subst, String, List, [], ◌∷◌, inl, inr, arith}
use mono_chain.Sdk.Outcome.{ok, Result-cases}
use mono_chain.Sdk.Amounts.{Coin, amount_of}
use mono_chain.Cmd.MultiNode.{Env, Balance, BankGenesis}
use mono_chain.Cmd.MultiNode.Genesis.{add_supply, fill_bank}

-- What the accounts hold together in one denomination.
abbrev pub held : String → List Balance → ℕ
held denom [] = 0
held denom (bal ∷ bals) = amount_of denom bal.coins + held denom bals

module _ (env : Env) where
  add_supply_lem :
      (denom : String) (bals : List Balance) (supply total : List Coin)
      → add_supply env bals supply ≡ ok total
      → amount_of denom total ≡ amount_of denom supply + held denom bals
  unfolding add_supply
  add_supply_lem denom [] supply total done = ground arith
  add_supply_lem denom (bal ∷ bals) supply total done =
      elim (Result-cases (env.add_coins supply bal.coins)) [
        | inr (e, bad) ↦ absurd (cc (rw (add_supply, bad) at done))
        | inl (c, good) ↦
            let sum : amount_of denom c ≡ amount_of denom supply + amount_of denom bal.coins =
              env.add_coins_lem supply bal.coins c denom good in
            omega (arith, sum, add_supply_lem denom bals c total (rw (add_supply, good) at done))
      ]

  -- Where the genesis state of x/bank is made and its supply was empty, the new supply of each
  -- denomination is what the accounts of the new state hold together, which x/bank asks for when
  -- the chain starts; nothing but the balances and the supply is changed.
  pub fill_bank_lem :
      (gen_balances : List Balance) (bank filled : BankGenesis)
      → fill_bank env gen_balances bank ≡ ok filled
      → bank.supply ≡ []
      → (filled.balances ≡ env.sanitize_genesis_balances gen_balances)
        × (filled.rest ≡ bank.rest)
        × ((denom : String) → amount_of denom filled.supply ≡ held denom filled.balances)
  unfolding fill_bank
  fill_bank_lem gen_balances bank filled done none =
      let balances : List Balance = env.sanitize_genesis_balances gen_balances in
      elim (Result-cases (add_supply env balances bank.supply)) [
        | inr (e, bad) ↦ absurd (cc (rw (fill_bank, bad) at done))
        | inl (total, good) ↦
            let made : BankGenesis = record bank { balances = balances; supply = total } in
            let e : ok made ≡ ok filled = rw (fill_bank, good) at done in
            let same : made ≡ filled = cc e in
            subst
              (λ (f : BankGenesis).
                (f.balances ≡ balances)
                × (f.rest ≡ bank.rest)
                × ((denom : String) → amount_of denom f.supply ≡ held denom f.balances))
              same
              (
                refl,
                refl,
                λ denom. omega (arith, add_supply_lem denom balances [] total (rw none at good)),
              )
      ]

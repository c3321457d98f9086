-- ===== src/Sdk/Bank.antt =====
-- The BankKeeper of x/burn/types/expected_keepers.go: the operations are x/bank's, and the laws say
-- what a call that returned no error has done to the balances and to the supply.
use mono_chain.Prelude.{ℕ, ◌+◌, ◌≤◌, ◌≡◌, String, List, bytes_eq, if◌then◌else◌}
use mono_chain.Prelude.Int.{pos}
use mono_chain.Sdk.Outcome.{ok, Action}
use mono_chain.Sdk.Amounts.{int, Coin, amount_of}
use mono_chain.Sdk.Address.{Address}

-- `n` at the address `a`, and nothing elsewhere.
abbrev pub at : Address → ℕ → Address → ℕ
at a n x = if bytes_eq x a then n else 0

pub record Bank : Type 1 where
  pub State : Type 0
  pub balance : Address → String → State → ℕ
  pub supply : String → State → ℕ
  -- what an account may send, which is not what it has where coins of it are vesting
  pub spendable : Address → String → State → ℕ
  pub spendable_le : (a : Address) (d : String) (s : State) → spendable a d s ≤ balance a d s
  -- `authtypes.NewModuleAddress`
  pub module_address : String → Address
  -- a module account with that name exists; it may burn
  pub registered : String → State → Type 0
  pub burner : String → State → Type 0
  pub get_balance : Address → String → State → Coin
  pub get_balance_lem :
      (a : Address) (d : String) (s : State)
      → get_balance a d s ≡ record { denom = d; amount = int (pos (balance a d s)) }
  pub account_to_module : Address → String → List Coin → Action State (Unit {0})
  pub module_to_module : String → String → List Coin → Action State (Unit {0})
  pub burn_coins : String → List Coin → Action State (Unit {0})
  pub account_to_module_moves :
      (a : Address) (m : String) (cs : List Coin) (s : State)
      → (account_to_module a m cs s).0 ≡ ok tt
      → (x : Address) (d : String)
      → let s' = (account_to_module a m cs s).1 in
        (balance x d s' + at a (amount_of d cs) x
          ≡ balance x d s + at (module_address m) (amount_of d cs) x)
        × (supply d s' ≡ supply d s)
  pub module_to_module_moves :
      (l m : String) (cs : List Coin) (s : State)
      → (module_to_module l m cs s).0 ≡ ok tt
      → (x : Address) (d : String)
      → let s' = (module_to_module l m cs s).1 in
        (balance x d s' + at (module_address l) (amount_of d cs) x
          ≡ balance x d s + at (module_address m) (amount_of d cs) x)
        × (supply d s' ≡ supply d s)
  pub burn_coins_destroys :
      (m : String) (cs : List Coin) (s : State)
      → (burn_coins m cs s).0 ≡ ok tt
      → (x : Address) (d : String)
      → let s' = (burn_coins m cs s).1 in
        (balance x d s' + at (module_address m) (amount_of d cs) x ≡ balance x d s)
        × (supply d s' + amount_of d cs ≡ supply d s)
  -- what an account may send it can send to a module account that exists
  pub account_to_module_succeeds :
      (a : Address) (m : String) (cs : List Coin) (s : State)
      → registered m s
      → ((d : String) → amount_of d cs ≤ spendable a d s)
      → ((account_to_module a m cs s).0 ≡ ok tt)
        × (burner m s → burner m (account_to_module a m cs s).1)
  -- between module accounts that exist, covered transfers succeed, and so do burns by a burner
  pub module_to_module_succeeds :
      (l m : String) (cs : List Coin) (s : State)
      → registered l s
      → registered m s
      → ((d : String) → amount_of d cs ≤ balance (module_address l) d s)
      → ((module_to_module l m cs s).0 ≡ ok tt)
        × (burner m s → burner m (module_to_module l m cs s).1)
  pub burn_coins_succeeds :
      (m : String) (cs : List Coin) (s : State)
      → burner m s
      → ((d : String) → amount_of d cs ≤ balance (module_address m) d s)
      → ((d : String) → amount_of d cs ≤ supply d s)
      → (burn_coins m cs s).0 ≡ ok tt

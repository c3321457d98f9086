-- ===== src/Validator/Wiring.antt =====
-- app/app.go hands the keeper of x/burn to the keeper of x/validator: the burn keeper fills the
-- interface that registrations rely on.
use mono_chain.Prelude.{ℕ, ◌+◌, ◌≡◌, refl, List}
use mono_chain.Prelude.Int.{pos}
use mono_chain.Sdk.Outcome.{ok, Action}
use mono_chain.Sdk.Amounts.{int, Coin}
use mono_chain.Sdk.Address.{Address}
use mono_chain.Burn.Types.{default_bond_denom}
use mono_chain.Burn.Keeper as Burns
use mono_chain.Burn.Keeper.{burn_from_account}
use mono_chain.Burn.Keeper.Burns.{burn_from_account_lem}
use mono_chain.Burn.Growth.{amount_of_bond}
use mono_chain.Validator.Types.{BurnKeeper}

-- The state of x/burn beside that of the other modules, which `V` stands for.
module _ (kb : Burns.Keeper) {V : Type 0} (validators : V → List Address) where
  abbrev pub World : Type 0
  World = Burns.Ctx kb × V

  abbrev pub bond_supply : World → ℕ
  bond_supply w = kb.bank.supply default_bond_denom w.0.bank

  abbrev pub operators : World → List Address
  operators w = validators w.1

  abbrev pub burn_in_world : Address → Coin → Action World (Unit {0})
  burn_in_world a coin w = let (r, c) = burn_from_account kb a coin w.0 in (r, (c, w.1))

  -- A burn in the app takes the amount of the coin out of the supply of the bond denomination, and
  -- leaves the validators alone.
  pub burn_in_world_burns :
      (a : Address) (coin : Coin) (w : World)
      → (burn_in_world a coin w).0 ≡ ok tt
      → (n : ℕ) × (coin.amount ≡ int (pos n))
        × (bond_supply (burn_in_world a coin w).1 + n ≡ bond_supply w)
        × (operators (burn_in_world a coin w).1 ≡ operators w)
  burn_in_world_burns a coin w done =
      let b = burn_from_account_lem kb a coin w.0 done in
      (
        b.amount,
        b.is_amount,
        rw (amount_of_bond kb coin b.amount b.is_amount (λ h. (b.tracked h).0)) at
            (b.destroyed a default_bond_denom).1,
        refl,
      )

  abbrev pub app_burn_keeper : BurnKeeper World bond_supply operators
  app_burn_keeper = record { burn_from_account = burn_in_world; burns = burn_in_world_burns }

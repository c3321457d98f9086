-- ===== src/Burn/Keeper/Burns.antt =====
-- What a burn that returns no error has done: `burnNative`, `BurnFromAccount`, `BurnFromModule`.
use mono_chain.Prelude.{
  ℕ, zero, suc, ◌+◌, ◌<◌, ◌≡◌, refl, sym, ap, ◌∙◌, inl, inr, Bool, true, false, String, List, [],
  ◌∷◌, arith, Bool-cases, str_eq, eq_iff, not,
}
use mono_chain.Prelude.Int.{pos, negsuc}
use mono_chain.Sdk.Outcome.{
  ok, burn, invalid_burn_denom, fail_if, return_unless, lift, ◌>>=◌, ◌>>◌, Ensures, >>=-Ensures,
  Ensures-map, Ensures-ok,
}
use mono_chain.Sdk.Amounts.{MathInt, int, Coin, amount_of, is_positive, sanitized}
use mono_chain.Sdk.Bank.{at}
use mono_chain.Sdk.Address.{Address}
use mono_chain.Burn.Types.{module_name, default_bond_denom}
use mono_chain.Burn.Keeper.{
  Keeper, Ctx, on_bank, burn_native, burn_from_account, burn_from_module, update_trackers,
}
use mono_chain.Burn.Keeper.Trackers.{IsTracked, IsTracked-bank, update_trackers-Ensures}

sanitized-ok :
    (valid : String → Bool) (c : Coin) (z : MathInt) (cs : List Coin)
    → c.amount ≡ z
    → sanitized valid c z ≡ ok cs
    → (n : ℕ) × (c.amount ≡ int (pos n)) × ((d : String) → amount_of d cs ≡ amount_of d (c ∷ []))
sanitized-ok valid c MathInt.nil cs e h = cc
sanitized-ok valid c (int (negsuc n)) cs e h = cc
sanitized-ok valid c (int (pos zero)) cs e h = (0, e, λ d. ground arith)
sanitized-ok valid c (int (pos (suc n))) cs e h = (suc n, e, λ d. ground arith)

module _ (k : Keeper) where
  -- `coin` was taken from the address `a` and from the supply, and nothing else has moved.
  abbrev pub IsDestroyed : Address → Coin → k.bank.State → k.bank.State → Type 0
  IsDestroyed a coin s s' =
      (x : Address) (d : String)
      → (k.bank.balance x d s' + at a (amount_of d (coin ∷ [])) x ≡ k.bank.balance x d s)
        × (k.bank.supply d s' + amount_of d (coin ∷ []) ≡ k.bank.supply d s)

  new_coins-ok :
      (coin : Coin) (cs : List Coin)
      → k.math.new_coins coin ≡ ok cs
      → (n : ℕ) × (coin.amount ≡ int (pos n))
        × ((d : String) → amount_of d cs ≡ amount_of d (coin ∷ []))
  new_coins-ok coin cs h =
      sanitized-ok k.math.valid_denom coin coin.amount cs refl (sym (k.math.new_coins_lem coin) ∙ h)

  -- The burn of `coin`, taken from the address `from`, in the name of `sender`. A burn of nothing
  -- leaves the trackers alone; any other is one of the bond denomination and enters them.
  pub record IsBurned (from sender : Address) (coin : Coin) (c c' : Ctx k) : Type 0 where
    pub amount : ℕ
    pub is_amount : coin.amount ≡ int (pos amount)
    pub destroyed : IsDestroyed from coin c.bank c'.bank
    pub tracked :
        0 < amount → (coin.denom ≡ default_bond_denom) × IsTracked k sender coin.amount c c'
    pub untracked :
        amount ≡ 0 → (c'.count ≡ c.count) × (c'.total ≡ c.total) × (c'.accounts ≡ c.accounts)
    pub params : c'.params ≡ c.params
    pub events : c'.events ≡ c.events

  denom_checked :
      (coin : Coin) (c : Ctx k)
      → (fail_if (not (str_eq coin.denom default_bond_denom)) (burn invalid_burn_denom) c).0 ≡ ok tt
      → coin.denom ≡ default_bond_denom
  denom_checked coin c h = elim (Bool-cases (str_eq coin.denom default_bond_denom)) [
    | inl same ↦ (eq_iff coin.denom default_bond_denom).0 same
    | inr other ↦ cc (rw other at h)
  ]

  amount_of-positive :
      (coin : Coin) (n : ℕ) (d : String)
      → coin.amount ≡ int (pos n)
      → is_positive (int (pos n)) ≡ ok false
      → amount_of d (coin ∷ []) ≡ 0
  amount_of-positive coin n d is_n e = ground arith

  module _ (sender : Address) (coin : Coin) (c : Ctx k) (n : ℕ)
      (is_n : coin.amount ≡ int (pos n)) where
    abbrev IsBurnedHere : Unit {0} → Ctx k → Type 0
    IsBurnedHere _ c' = IsBurned (k.bank.module_address module_name) sender coin c c'

    burnt_coins :
        (cs : List Coin)
        → k.math.new_coins coin ≡ ok cs
        → (k.bank.burn_coins module_name cs c.bank).0 ≡ ok tt
        → IsDestroyed
            (k.bank.module_address module_name)
            coin
            c.bank
            (k.bank.burn_coins module_name cs c.bank).1
    burnt_coins cs made done x d =
        let (m, is_m, same) = new_coins-ok coin cs made in
        rw (same d) at (k.bank.burn_coins_destroys module_name cs c.bank done x d)

    rest-Ensures :
        (positive : Bool)
        → is_positive (int (pos n)) ≡ ok positive
        → Ensures IsBurnedHere (
            return_unless positive
              (fail_if (not (str_eq coin.denom default_bond_denom)) (burn invalid_burn_denom)
                >> (lift (k.math.new_coins coin) >>= λ coins.
                    on_bank (k.bank.burn_coins module_name coins) >> update_trackers k sender coin))
              c)
    rest-Ensures false e = record {
      amount = n;
      is_amount = is_n;
      destroyed = λ x d. rw (amount_of-positive coin n d is_n e) (ground arith);
      tracked = λ h. absurd (ground arith);
      untracked = λ _. (refl, refl, refl);
      params = refl;
      events = refl;
    }
    rest-Ensures true e = >>=-Ensures IsBurnedHere _ _ _ λ _ p1.
        >>=-Ensures IsBurnedHere _ _ _ λ cs p2. >>=-Ensures IsBurnedHere _ _ _ λ _ p3.
          let c1 : Ctx k = record c { bank = (k.bank.burn_coins module_name cs c.bank).1 } in
          Ensures-map IsBurnedHere (update_trackers k sender coin c1)
            (λ _ c' (t, b, keeps_params, keeps_events). record {
              amount = n;
              is_amount = is_n;
              destroyed = rw b (burnt_coins cs p2 p3);
              tracked = λ _. (denom_checked coin c p1, IsTracked-bank k t);
              untracked = λ z. absurd (ground arith);
              params = keeps_params;
              events = keeps_events;
            })
            (update_trackers-Ensures k sender coin c1)

  -- `Keeper.burnNative`: a burn from the module's own account.
  pub burn_native-Ensures :
      (sender : Address) (coin : Coin) (c : Ctx k) (n : ℕ)
      → coin.amount ≡ int (pos n)
      → Ensures
          (λ _ c'. IsBurned (k.bank.module_address module_name) sender coin c c')
          (burn_native k sender coin c)
  unfolding burn_native
  burn_native-Ensures sender coin c n is_n =
      let P : Unit {0} → Ctx k → Type 0 =
        λ _ c'. IsBurned (k.bank.module_address module_name) sender coin c c' in
      >>=-Ensures P _ _ _
        λ positive e. rest-Ensures sender coin c n is_n positive (ap is_positive (sym is_n) ∙ e)

  -- The transfer to the module and the burn that follows it, as one.
  IsBurned-after :
      (a : Address) (coin : Coin) (c c' : Ctx k) (cs : List Coin) (s : k.bank.State)
      → ((d : String) → amount_of d cs ≡ amount_of d (coin ∷ []))
      → ((x : Address) (d : String)
          → (k.bank.balance x d s + at a (amount_of d cs) x
              ≡ k.bank.balance x d c.bank
                + at (k.bank.module_address module_name) (amount_of d cs) x)
            × (k.bank.supply d s ≡ k.bank.supply d c.bank))
      → IsBurned (k.bank.module_address module_name) a coin (record c { bank = s }) c'
      → IsBurned a a coin c c'
  IsBurned-after a coin c c' cs s same moved b = record {
    amount = b.amount;
    is_amount = b.is_amount;
    destroyed = λ x d.
        let m = rw (same d) at (moved x d) in let q = b.destroyed x d in (omega arith, omega arith);
    tracked = λ h. let (denom, t) = b.tracked h in (denom, IsTracked-bank k t);
    untracked = b.untracked;
    params = b.params;
    events = b.events;
  }

  -- `Keeper.BurnFromAccount`: what it burns leaves the sender's account and the supply, and enters
  -- the trackers in the sender's name.
  pub burn_from_account-Ensures :
      (sender : Address) (coin : Coin) (c : Ctx k)
      → Ensures (λ _ c'. IsBurned sender sender coin c c') (burn_from_account k sender coin c)
  unfolding burn_from_account
  burn_from_account-Ensures sender coin c =
      let P : Unit {0} → Ctx k → Type 0 = λ _ c'. IsBurned sender sender coin c c' in
      >>=-Ensures P _ _ _ λ cs p1. >>=-Ensures P _ _ _ λ _ p2.
        let s : k.bank.State = (k.bank.account_to_module sender module_name cs c.bank).1 in
        let (n, is_n, same) = new_coins-ok coin cs p1 in
        Ensures-map P (burn_native k sender coin (record c { bank = s }))
          (λ _ c'.
            IsBurned-after sender coin c c' cs s same
              (k.bank.account_to_module_moves sender module_name cs c.bank p2))
          (burn_native-Ensures sender coin (record c { bank = s }) n is_n)

  -- `Keeper.BurnFromModule`
  pub burn_from_module-Ensures :
      (sender_module : String) (coin : Coin) (c : Ctx k)
      → let a = k.bank.module_address sender_module in
        Ensures (λ _ c'. IsBurned a a coin c c') (burn_from_module k sender_module coin c)
  unfolding burn_from_module
  burn_from_module-Ensures sender_module coin c =
      let a : Address = k.bank.module_address sender_module in
      let P : Unit {0} → Ctx k → Type 0 = λ _ c'. IsBurned a a coin c c' in
      >>=-Ensures P _ _ _ λ cs p1. >>=-Ensures P _ _ _ λ _ p2.
        let s : k.bank.State = (k.bank.module_to_module sender_module module_name cs c.bank).1 in
        let (n, is_n, same) = new_coins-ok coin cs p1 in
        Ensures-map P (burn_native k a coin (record c { bank = s }))
          (λ _ c'.
            IsBurned-after a coin c c' cs s same
              (k.bank.module_to_module_moves sender_module module_name cs c.bank p2))
          (burn_native-Ensures a coin (record c { bank = s }) n is_n)

  -- A successful burn from an account takes exactly the coin from that account and from the supply
  -- and leaves every other balance alone; unless it is a burn of nothing, the coin is of the bond
  -- denomination, and the trackers grow by it in the account's name.
  pub burn_from_account_lem :
      (sender : Address) (coin : Coin) (c : Ctx k)
      → (burn_from_account k sender coin c).0 ≡ ok tt
      → IsBurned sender sender coin c (burn_from_account k sender coin c).1
  burn_from_account_lem sender coin c =
      Ensures-ok (λ _ c'. IsBurned sender sender coin c c') _
        (burn_from_account-Ensures sender coin c)

-- ===== src/Burn/Chain.antt =====
-- The burn module over the life of a chain: blocks, messages that succeed, and what they keep.
-- A message that returns an error is rolled back by baseapp, so it is no step.
use mono_chain.Prelude.{ℕ, ◌≡◌, refl, sym, ap, ◌∙◌, String}
use mono_chain.Prelude.Int.{ℤ, pos, ◌+ℤ◌, pos_part, neg_part, int_laws}
use mono_chain.Sdk.Outcome.{ok, Ensures-ok}
use mono_chain.Sdk.Amounts.{int, Coin}
use mono_chain.Sdk.Address.{Address}
use mono_chain.Burn.Types.{MsgBurn, MsgUpdateParams, default_bond_denom}
use mono_chain.Burn.Keeper.{Keeper, Ctx, burn_from_account, burn_from_module}
use mono_chain.Burn.Keeper.Burns.{burn_from_account_lem, burn_from_module-Ensures}
use mono_chain.Burn.Server
use mono_chain.Burn.Solvent.{AreAmounts}
use mono_chain.Burn.Growth.{
  IsGrown-AreAmounts, IsGrown, IsSound, IsGrown-adds, IsBurned-IsGrown, burn-Ensures,
  begin_block-Ensures, update_params-Ensures,
}

shifted :
    (t base z z' : ℤ) (x y : ℕ)
    → pos y +ℤ z ≡ pos x +ℤ z'
    → t +ℤ pos x ≡ base +ℤ z
    → t +ℤ pos y ≡ base +ℤ z'
shifted t base z z' x y e h =
    omega (int_laws, ap pos_part e, ap neg_part e, ap pos_part h, ap neg_part h)

-- Nothing added.
+ℤ_zero : (t : ℤ) → t ≡ t +ℤ pos 0
+ℤ_zero t = omega int_laws

module _ (k : Keeper) where
  -- What happens on a chain, as x/burn sees it: its messages, the start of a block, and the calls
  -- of its keeper by other modules.
  pub data Step (c : Ctx k) : Ctx k → Type 0 where
    burned : (msg : MsgBurn) → (Server.burn k msg c).0 ≡ ok tt → Step c (Server.burn k msg c).1
    updated :
        (msg : MsgUpdateParams)
        → (Server.update_params k msg c).0 ≡ ok tt
        → Step c (Server.update_params k msg c).1
    began : (Server.begin_block k c).0 ≡ ok tt → Step c (Server.begin_block k c).1
    charged :
        (a : Address) (coin : Coin)
        → (burn_from_account k a coin c).0 ≡ ok tt
        → Step c (burn_from_account k a coin c).1
    charged_module :
        (m : String) (coin : Coin)
        → (burn_from_module k m coin c).0 ≡ ok tt
        → Step c (burn_from_module k m coin c).1

  -- Other modules do with the bank what they do; what they minted less what they burned of the bond
  -- denomination, all in all, is `z`.
  pub data Reach (c : Ctx k) : (z : ℤ) → Ctx k → Type 0 where
    here : (z : ℤ) → z ≡ pos 0 → Reach c z c
    next : {z : ℤ} {c1 c2 : Ctx k} → Reach c z c1 → Step c1 c2 → Reach c z c2
    moved :
        {z : ℤ} {c1 : Ctx k}
        → Reach c z c1
        → (s : k.bank.State) (z' : ℤ)
        → pos (k.bank.supply default_bond_denom s) +ℤ z
          ≡ pos (k.bank.supply default_bond_denom c1.bank) +ℤ z'
        → Reach c z' (record c1 { bank = s })

  -- The invariant after a step, and what the step added to the total; totals of accounts that are
  -- amounts stay amounts.
  abbrev pub Adds : (base : ℤ) {c : Ctx k} → IsSound k base c → Ctx k → Type 0
  Adds base {c} s c' =
      (n : ℕ) × (s' : IsSound k base c') × (s'.total ≡ s.total +ℤ pos n)
      × (AreAmounts (k.account_burn_total.entries c.accounts)
          → AreAmounts (k.account_burn_total.entries c'.accounts))

  IsGrown-Adds :
      (base : ℤ) (a : Address) (n : ℕ) (c c' : Ctx k) (s : IsSound k base c)
      → IsGrown k a n c c'
      → Adds base s c'
  IsGrown-Adds base a n c c' s g =
      let (s', grown) = IsGrown-adds k base a n c c' g s in
      (n, s', grown, IsGrown-AreAmounts k a n c c' g)

  -- A burn in the name of `a` adds the amount of the coin.
  pub charged_adds :
      (base : ℤ) (a : Address) (coin : Coin) (c : Ctx k)
      → (burn_from_account k a coin c).0 ≡ ok tt
      → (s : IsSound k base c)
      → (n : ℕ) × (coin.amount ≡ int (pos n))
        × (s' : IsSound k base (burn_from_account k a coin c).1) × (s'.total ≡ s.total +ℤ pos n)
  charged_adds base a coin c done s =
      let b = burn_from_account_lem k a coin c done in
      let (s', grown) = IsGrown-adds k base a b.amount c _ (IsBurned-IsGrown k a coin c _ b) s in
      (b.amount, b.is_amount, s', grown)

  pub Step-Adds : (base : ℤ) {c c' : Ctx k} → Step c c' → (s : IsSound k base c) → Adds base s c'
  Step-Adds base {c} (burned msg done) s =
      let (a, n, g) = Ensures-ok _ _ (burn-Ensures k msg c) done in IsGrown-Adds base a n c _ s g
  Step-Adds base {c} (updated msg done) s =
      let (s', same_total, same_accounts) =
        Ensures-ok _ _ (update_params-Ensures k base msg c s) done in
      (0, s', same_total ∙ +ℤ_zero s.total, λ p. rw same_accounts p)
  Step-Adds base {c} (began done) s =
      let (a, n, g) = Ensures-ok _ _ (begin_block-Ensures k base c s) done in
      IsGrown-Adds base a n c _ s g
  Step-Adds base {c} (charged a coin done) s =
      IsGrown-Adds base _ _ c _ s
        (IsBurned-IsGrown k a coin c _ (burn_from_account_lem k a coin c done))
  Step-Adds base {c} (charged_module m coin done) s =
      let b = Ensures-ok _ _ (burn_from_module-Ensures k m coin c) done in
      IsGrown-Adds base _ _ c _ s (IsBurned-IsGrown k _ coin c _ b)

  -- Moves in the bank add nothing.
  pub moved_adds :
      (base z z' : ℤ) (c : Ctx k) (b : k.bank.State)
      → pos (k.bank.supply default_bond_denom b) +ℤ z
        ≡ pos (k.bank.supply default_bond_denom c.bank) +ℤ z'
      → (s : IsSound k (base +ℤ z) c)
      → (s' : IsSound k (base +ℤ z') (record c { bank = b })) × (s'.total ≡ s.total)
  moved_adds base z z' c b changed s = (
    record {
      total = s.total;
      is_total = s.is_total;
      balanced = s.balanced;
      conserved = shifted _ base z z' _ _ changed s.conserved;
      rate = s.rate;
      is_rate = s.is_rate;
      valid_rate = s.valid_rate;
    },
    refl,
  )

  pub unmoved_adds :
      (base z : ℤ) (c : Ctx k)
      → z ≡ pos 0
      → (s : IsSound k base c) → (s' : IsSound k (base +ℤ z) c) × (s'.total ≡ s.total)
  unmoved_adds base z c none s = (
    record {
      total = s.total;
      is_total = s.is_total;
      balanced = s.balanced;
      conserved = s.conserved ∙ +ℤ_zero base ∙ ap (λ x. base +ℤ x) (sym none);
      rate = s.rate;
      is_rate = s.is_rate;
      valid_rate = s.valid_rate;
    },
    refl,
  )

  -- From a sound state the chain reaches only sound states: the global burn total stays the sum of
  -- the totals of the accounts, what is burned and what is left of the supply add up to the same
  -- constant and what other modules minted less what they burned, and the stored rate stays one that
  -- `Params.Validate` accepts.
  pub Reach-IsSound :
      (base : ℤ) {c : Ctx k} {z : ℤ} {c' : Ctx k}
      → Reach c z c'
      → IsSound k base c
      → IsSound k (base +ℤ z) c'
  Reach-IsSound base {c} (here z none) s = (unmoved_adds base z c none s).0
  Reach-IsSound base (next {z} r st) s = (Step-Adds (base +ℤ z) st (Reach-IsSound base r s)).1
  Reach-IsSound base (moved {z} {c1} r b z' changed) s =
      (moved_adds base z z' c1 b changed (Reach-IsSound base r s)).0

  -- Along a chain from a sound state, totals of accounts that are amounts stay amounts.
  pub Reach-AreAmounts :
      (base : ℤ) {c : Ctx k} {z : ℤ} {c' : Ctx k}
      → Reach c z c'
      → IsSound k base c
      → AreAmounts (k.account_burn_total.entries c.accounts)
      → AreAmounts (k.account_burn_total.entries c'.accounts)
  Reach-AreAmounts base (here z none) s p = p
  Reach-AreAmounts base (next {z} r st) s p =
      (Step-Adds (base +ℤ z) st (Reach-IsSound base r s)).3 (Reach-AreAmounts base r s p)
  Reach-AreAmounts base (moved r b z' changed) s p = Reach-AreAmounts base r s p

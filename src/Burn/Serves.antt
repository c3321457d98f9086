-- ===== src/Burn/Serves.antt =====
-- On a sound chain a burn is never refused for want of room in the trackers.
use mono_chain.Prelude.{ℕ, ◌+◌, ◌*◌, ◌≤◌, ◌<◌, ◌≡◌, sym, ap, ◌∙◌, String, arith}
use native.Mathlib.Nat.{mul-le-mul}
use mono_chain.Prelude.Int.{ℤ, pos, ◌+ℤ◌, pos_part, magnitude}
use mono_chain.Sdk.Outcome.{ok}
use mono_chain.Sdk.Amounts.{MathInt, int, zero_int, int_limit, dec_limit, one}
use mono_chain.Sdk.Address.{Address}
use mono_chain.Burn.Types.{new_msg_burn, module_name, fee_collector_name, default_bond_denom}
use mono_chain.Burn.Keeper.{Keeper, Ctx, burn_from_account}
use mono_chain.Burn.Keeper.Fees.{alyth, share, share-le}
use mono_chain.Burn.Keeper.Progress.{burn_from_account-succeeds_any, process_fee_burn-succeeds}
use mono_chain.Burn.Keeper.Burns.{IsBurned}
use mono_chain.Burn.Keeper.Room.{CanTrack}
use mono_chain.Burn.Server.{burn, begin_block}
use mono_chain.Burn.Server.Delivered.{burn-succeeds}
use mono_chain.Burn.Totals.{sum_totals}
use mono_chain.Burn.Solvent.{AreAmounts, sum_totals-IsAmount, read_le, +ℤ-pos}
use mono_chain.Burn.Growth.{IsSound, validate_params-rate}
use mono_chain.Burn.Chain.{Reach, Reach-IsSound, Reach-AreAmounts}

sum_small : (m n : ℕ) → m + n < int_limit → magnitude (pos m +ℤ pos n) < int_limit
sum_small m n h = rw (+ℤ-pos m n) (omega arith)

module _ (k : Keeper) where
  abbrev pub AccountsAreAmounts : Ctx k → Type 0
  AccountsAreAmounts c = AreAmounts (k.account_burn_total.entries c.accounts)

  -- The collections of the trackers answer, and take every write under `a`.
  pub record Answers (a : Address) (c : Ctx k) : Type 0 where
    pub count : ℕ
    pub counts : (k.global_burn_count.next c.count).0 ≡ ok count
    pub total_stores : (v : MathInt) → (k.global_burn_total.set v c.total).0 ≡ ok tt
    pub account_stores : (v : MathInt) → (k.account_burn_total.set a v c.accounts).0 ≡ ok tt

  -- The global total is an amount, and what is left of the supply is the rest.
  total_and_supply :
      (base : ℤ) (b : ℕ) (c : Ctx k) (s : IsSound k base c)
      → AccountsAreAmounts c
      → base ≡ pos b
      → (m : ℕ) × (sum_totals (k.account_burn_total.entries c.accounts) ≡ pos m)
        × (s.total ≡ pos m)
        × (m + k.bank.supply default_bond_denom c.bank ≡ b)
  total_and_supply base b c s p is_b =
      let (m, is_m) = sum_totals-IsAmount _ p in
      let total_is : s.total ≡ pos m = s.balanced ∙ is_m in
      let left : ℕ = k.bank.supply default_bond_denom c.bank in
      let all : pos (m + left) ≡ pos b =
        sym (+ℤ-pos m left) ∙ ap (λ t. t +ℤ pos left) (sym total_is) ∙ s.conserved ∙ is_b in
      (m, is_m, total_is, ap pos_part all)

  IsSound-CanTrack :
      (base : ℤ) (b : ℕ) (a : Address) (n : ℕ) (c : Ctx k)
      → IsSound k base c
      → AccountsAreAmounts c
      → base ≡ pos b
      → b < int_limit
      → Answers a c
      → n ≤ k.bank.supply default_bond_denom c.bank
      → CanTrack k a n c
  IsSound-CanTrack base b a n c s p is_b small r backed =
      let (m, is_m, total_is, fits) = total_and_supply base b c s p is_b in
      let written =
        k.account_burn_total.entries-set a zero_int c.accounts (r.account_stores zero_int) in
      let (x, is_x, low) = read_le a zero_int _ _ _ m written p is_m in
      record {
        count = r.count;
        counts = r.counts;
        total = pos m;
        is_total = s.is_total ∙ ap (λ t. ok (int t)) total_is;
        total_fits = sum_small m n (omega arith);
        total_stores = r.total_stores;
        account = pos x;
        is_account = is_x;
        account_fits = sum_small x n (omega arith);
        account_stores = r.account_stores;
      }

  -- On a chain from a sound state a call of `BurnFromAccount` goes through.
  pub Reach-charges :
      (base : ℤ) (b : ℕ) {c : Ctx k} {z : ℤ} {c' : Ctx k} (a : Address) (n : ℕ)
      → IsSound k base c
      → AccountsAreAmounts c
      → Reach k c z c'
      → base +ℤ z ≡ pos b
      → b < int_limit
      → Answers a c'
      → k.bank.registered module_name c'.bank
      → k.bank.burner module_name c'.bank
      → n ≤ k.bank.spendable a default_bond_denom c'.bank
      → n ≤ k.bank.supply default_bond_denom c'.bank
      → (burn_from_account k a (alyth n) c').0 ≡ ok tt
  Reach-charges base b {c' = c'} a n s p r is_b small answers known may_burn funds backed =
      burn_from_account-succeeds_any k a n c' known may_burn funds backed (λ _.
        IsSound-CanTrack _ b a n c' (Reach-IsSound k base r s) (Reach-AreAmounts k base r s p) is_b
          small answers backed)

  -- On a chain from a sound state, whose totals of accounts are amounts, MsgBurn of a positive amount of
  -- alyth that its sender may send and that the supply covers returns no error, and burns the amount
  -- in the sender's name, as long as what was there at first and what other modules minted less what
  -- they burned fits into 256 bits together, the module account of x/burn exists and may burn, and
  -- the collections answer and take every write.
  pub Reach-burns :
      (base : ℤ) (b : ℕ) {c : Ctx k} {z : ℤ} {c' : Ctx k} (from : String) (a : Address) (n : ℕ)
      → IsSound k base c
      → AccountsAreAmounts c
      → Reach k c z c'
      → base +ℤ z ≡ pos b
      → b < int_limit
      → Answers a c'
      → k.address_codec.string_to_bytes from ≡ ok a
      → 0 < n
      → k.bank.registered module_name c'.bank
      → k.bank.burner module_name c'.bank
      → n ≤ k.bank.spendable a default_bond_denom c'.bank
      → n ≤ k.bank.supply default_bond_denom c'.bank
      → ((burn k (new_msg_burn from (alyth n)) c').0 ≡ ok tt)
        × IsBurned k a a (alyth n) c' (burn k (new_msg_burn from (alyth n)) c').1
  Reach-burns base b {c' = c'} from a n s p r is_b small answers decoded positive known may_burn
        funds backed =
      burn-succeeds k from a n c' decoded positive known may_burn funds backed (
        IsSound-CanTrack _ b a n c' (Reach-IsSound k base r s) (Reach-AreAmounts k base r s p) is_b
          small answers backed)

  -- On a chain from a sound state whose totals of accounts are amounts, the start of a block never
  -- fails, as long as what was there at first and what other modules minted less what they burned
  -- fits into 256 bits together, and a rate of one times that into 315 bits, the module accounts
  -- exist and that of x/burn may burn, the fees collected are within the supply, and the collections
  -- answer and take every write.
  pub Reach-begins :
      (base : ℤ) (b : ℕ) {c : Ctx k} {z : ℤ} {c' : Ctx k}
      → IsSound k base c
      → AccountsAreAmounts c
      → Reach k c z c'
      → base +ℤ z ≡ pos b
      → b < int_limit
      → one * b < dec_limit
      → Answers (k.bank.module_address fee_collector_name) c'
      → k.bank.registered fee_collector_name c'.bank
      → k.bank.registered module_name c'.bank
      → k.bank.burner module_name c'.bank
      → k.bank.balance (k.bank.module_address fee_collector_name) default_bond_denom c'.bank
        ≤ k.bank.supply default_bond_denom c'.bank
      → (begin_block k c').0 ≡ ok tt
  unfolding begin_block
  Reach-begins base b {z = z} {c' = c'} s p r is_b small fits answers known burn_known may_burn
        backed =
      let s' = Reach-IsSound k base r s in
      let (rate, is_rate, low) = validate_params-rate s'.rate s'.valid_rate in
      let held =
        k.bank.balance (k.bank.module_address fee_collector_name) default_bond_denom c'.bank in
      let (m, is_m, total_is, all) =
        total_and_supply (base +ℤ z) b c' s' (Reach-AreAmounts k base r s p) is_b in
      let held_le : held ≤ b = omega arith in
      let most : rate * held ≤ one * b = mul-le-mul low held_le in
      let within = share-le rate held low in
      process_fee_burn-succeeds k c' s'.rate rate s'.is_rate is_rate low (omega arith) known
        burn_known may_burn (omega arith)
        (λ _.
          IsSound-CanTrack _ b _ (share rate held) c' s' (Reach-AreAmounts k base r s p) is_b small
            answers (omega arith))

-- ===== src/Simulation/Burns.antt =====
-- x/burn/simulation/msg_factory.go: burns that the simulator makes up, and what x/burn does with them.
use mono_chain.Prelude.{ℕ, ◌≤◌, ◌<◌, ◌≡◌, subst, Option, some, arith}
use mono_chain.Sdk.Outcome.{ok}
use mono_chain.Burn.Types.{MsgBurn, new_msg_burn, module_name, default_bond_denom}
use mono_chain.Burn.Keeper.{Keeper, Ctx}
use mono_chain.Burn.Keeper.Burns.{IsBurned}
use mono_chain.Burn.Keeper.Room.{CanTrack}
use mono_chain.Burn.Server.{burn}
use mono_chain.Burn.Server.Delivered.{burn-succeeds}
use mono_chain.Simulation.Params.{native_coin}
use mono_chain.Simulation.Register.{SimAccount, or_skip, or_skip_inv}

-- `RandSubsetCoin` on a liquid balance: it draws a part that is not zero, or skips the message.
pub record Subset : Type 0 where
  pub draw : (available : ℕ) → Option ℕ
  pub draw_lem : (available n : ℕ) → draw available ≡ some n → (0 < n) × (n ≤ available)

-- `MsgBurnFactory`: no message where no account has the bond denomination, or nothing is drawn.
unfoldable pub burn_factory :
    (any_account : Option SimAccount) (subset : Subset) → Option (SimAccount × MsgBurn)
burn_factory any_account subset = or_skip any_account λ from.
    or_skip (subset.draw from.available)
      λ n. some (from, new_msg_burn from.address_bech32 (native_coin n))

-- A message of the simulator burns a part of what its account has.
burn_factory-makes :
    (any_account : Option SimAccount) (subset : Subset) (from : SimAccount) (msg : MsgBurn)
    → burn_factory any_account subset ≡ some (from, msg)
    → (n : ℕ) × (0 < n)
      × (n ≤ from.available)
      × (new_msg_burn from.address_bech32 (native_coin n) ≡ msg)
unfolding burn_factory
burn_factory-makes any_account subset from msg h =
    let (a, chosen, rest) = or_skip_inv any_account _ h in
    let (n, drawn, out) = or_skip_inv (subset.draw a.available) _ rest in
    let same : a ≡ from = cc out in
    let (positive, fits) = subset.draw_lem a.available n drawn in
    (n, positive, subst (λ (x : SimAccount). n ≤ x.available) same fits, cc out)

module _ (k : Keeper) where
  -- Where the simulator makes up a burn for an account, whose text decodes to its address and that
  -- may send what is available to it, x/burn takes the message, provided that the module account of
  -- x/burn exists and may burn, the supply covers what is available, and the trackers can take any
  -- part of it; a positive part of what is available is then burned in the name of the account.
  pub burn_factory-delivers :
      (any_account : Option SimAccount) (subset : Subset) (from : SimAccount) (msg : MsgBurn)
      (c : Ctx k)
      → burn_factory any_account subset ≡ some (from, msg)
      → k.address_codec.string_to_bytes from.address_bech32 ≡ ok from.address
      → k.bank.registered module_name c.bank
      → k.bank.burner module_name c.bank
      → from.available ≤ k.bank.spendable from.address default_bond_denom c.bank
      → from.available ≤ k.bank.supply default_bond_denom c.bank
      → ((n : ℕ) → n ≤ from.available → CanTrack k from.address n c)
      → ((burn k msg c).0 ≡ ok tt)
        × ((n : ℕ) × (0 < n)
            × (n ≤ from.available)
            × IsBurned k from.address from.address (native_coin n) c (burn k msg c).1)
  burn_factory-delivers any_account subset from msg c h decoded known may_burn funds backed t =
      let (n, positive, fits, same) = burn_factory-makes any_account subset from msg h in
      let (done, b) =
        burn-succeeds k from.address_bech32 from.address n c decoded positive known may_burn
          (omega arith) (omega arith) (t n fits) in
      subst
        (λ m.
          ((burn k m c).0 ≡ ok tt)
          × ((n : ℕ) × (0 < n)
              × (n ≤ from.available)
              × IsBurned k from.address from.address (native_coin n) c (burn k m c).1))
        same (done, (n, positive, fits, b))

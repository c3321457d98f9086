-- ===== src/Burn/Server/Delivered.antt =====
-- When `MsgBurn` goes through, and what it does then.
use mono_chain.Prelude.{ℕ, zero, suc, ◌≤◌, ◌<◌, ◌≡◌, String, arith}
use mono_chain.Sdk.Outcome.{ok, ◌>>=◌}
use mono_chain.Sdk.Address.{Address}
use mono_chain.Burn.Types.{module_name, default_bond_denom, new_msg_burn}
use mono_chain.Burn.Keeper.{Keeper, Ctx}
use mono_chain.Burn.Keeper.Burns.{IsBurned, burn_from_account_lem}
use mono_chain.Burn.Keeper.Fees.{alyth}
use mono_chain.Burn.Keeper.Room.{CanTrack}
use mono_chain.Burn.Keeper.Progress.{burn_from_account-succeeds}
use mono_chain.Burn.Server.{burn}

module _ (k : Keeper) where
  -- Where the module account of x/burn exists and may burn, a message that burns a positive amount of
  -- alyth, which its sender may send, the supply covers and the trackers can take, returns no error;
  -- it has then taken this amount from the sender and from the supply, and entered it in the
  -- trackers in the sender's name.
  pub burn-succeeds :
      (from : String) (a : Address) (n : ℕ) (c : Ctx k)
      → k.address_codec.string_to_bytes from ≡ ok a
      → 0 < n
      → k.bank.registered module_name c.bank
      → k.bank.burner module_name c.bank
      → n ≤ k.bank.spendable a default_bond_denom c.bank
      → n ≤ k.bank.supply default_bond_denom c.bank
      → CanTrack k a n c
      → ((burn k (new_msg_burn from (alyth n)) c).0 ≡ ok tt)
        × IsBurned k a a (alyth n) c (burn k (new_msg_burn from (alyth n)) c).1
  unfolding burn ◌>>=◌
  burn-succeeds from a zero c decoded positive known may_burn funds backed t = absurd (omega arith)
  burn-succeeds from a (suc m) c decoded positive known may_burn funds backed t =
      let done = burn_from_account-succeeds k a m c known may_burn funds backed t in
      let b = burn_from_account_lem k a (alyth (suc m)) c done in rw decoded (done, b)

-- ===== src/Cmd/NetworkId.antt =====
-- cmd/monod/cmd: the flag `--network-id` (commands.go, mono_config.go).
pub mod Resolve
use mono_chain.Prelude.{ℕ, ◌^◌, Bool, [], ◌∷◌, ltb, if◌then◌else◌}
use mono_chain.Sdk.Outcome.{
  cmd, chain_id_overflow, invalid_flags_combo, Result, ok, err, Action, lift, ◌>>=◌,
}
use mono_chain.Cmd.Text.{Text}
use mono_chain.Cmd.ChainId.{parse_chain_id}

-- The flags that the code reads: `network_id` is what `GetString` answers for --network-id, and
-- `chain_id_changed` what `Changed` answers for --chain-id.
pub record FlagSet : Type 0 where
  pub network_id : Result Text
  pub chain_id : Text
  pub chain_id_changed : Bool

-- `setNetworkIDFlag`
unfoldable pub set_network_id_flag : Action FlagSet (Unit {0})
set_network_id_flag fs = elim fs.network_id [
  | err e ↦ (err e, fs)
  | ok [] ↦ (ok tt, fs)
  | ok (c ∷ cs) ↦
      if fs.chain_id_changed
      then (err (cmd invalid_flags_combo), fs)
      else (ok tt, record fs { chain_id = c ∷ cs; chain_id_changed = Bool.true })
]

-- `IsUint64`, and the number itself
abbrev pub uint64_or_overflow : Result ℕ → Result ℕ
uint64_or_overflow (err e) = err e
uint64_or_overflow (ok n) = if ltb n (2 ^ 64) then ok n else err (cmd chain_id_overflow)

-- `resolveEVMChainID`; the default is a constant of cosmos/evm.
unfoldable pub resolve_evm_chain_id : (default_evm_chain_id : ℕ) → FlagSet → Result ℕ
resolve_evm_chain_id default_evm_chain_id fs = elim fs.network_id [
  | err e ↦ ok default_evm_chain_id
  | ok [] ↦ ok default_evm_chain_id
  | ok (c ∷ cs) ↦ uint64_or_overflow (parse_chain_id (c ∷ cs))
]

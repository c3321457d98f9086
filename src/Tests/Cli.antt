-- ===== src/Tests/Cli.antt =====
-- The theorems on the command line at concrete inputs.
use mono_chain.Prelude.{◌≡◌, refl, ◌↔◌, false, [], ◌∷◌}
use mono_chain.Sdk.Outcome.{ok, ◌>>=◌}
use mono_chain.Cmd.Text.{
  Text, byte_length, is_space, trim_left, trim_right, trim_space, value_from, all_digits,
}
use mono_chain.Cmd.ChainId.{parse_chain_id, evmos_chain_id, group, separator, at_end}
use mono_chain.Cmd.ChainId.Grammar.{IsChainId}
use mono_chain.Cmd.ChainId.Parse.{parse_chain_id_iff}
use mono_chain.Cmd.NetworkId.{FlagSet, resolve_evm_chain_id}
use mono_chain.Cmd.NetworkId.Resolve.{Resolved, resolve_evm_chain_id-Resolved}

-- `mono_6940-1`
abbrev pub mono_testnet : Text
mono_testnet = 109 ∷ 111 ∷ 110 ∷ 111 ∷ 95 ∷ 54 ∷ 57 ∷ 52 ∷ 48 ∷ 45 ∷ 49 ∷ []

abbrev pub testnet_flags : FlagSet
testnet_flags = record { network_id = ok mono_testnet; chain_id = []; chain_id_changed = false }

testnet_parses : parse_chain_id mono_testnet ≡ ok 6940
unfolding parse_chain_id evmos_chain_id group separator at_end is_space trim_left trim_right
    byte_length value_from all_digits ◌>>=◌
testnet_parses = refl

parse_chain_id_iff_example :
    (parse_chain_id mono_testnet ≡ ok 6940) ↔ IsChainId (trim_space mono_testnet) 6940
parse_chain_id_iff_example = parse_chain_id_iff mono_testnet 6940

resolve_evm_chain_id-Resolved_example :
    Resolved 262144 testnet_flags (resolve_evm_chain_id 262144 testnet_flags)
resolve_evm_chain_id-Resolved_example = resolve_evm_chain_id-Resolved 262144 testnet_flags

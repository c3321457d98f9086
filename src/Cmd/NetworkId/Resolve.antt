-- ===== src/Cmd/NetworkId/Resolve.antt =====
-- What becomes of `--network-id`: the EVM chain id of the configuration and the chain id of genesis.
use mono_chain.Prelude.{
  ℕ, ◌^◌, ◌≤◌, ◌<◌, ◌≡◌, ◌≢◌, refl, inl, inr, false, [], ◌∷◌, ltb, Bool-cases, arith,
}
use mono_chain.Sdk.Outcome.{cmd, invalid_chain_id, chain_id_overflow, Result, ok, err}
use mono_chain.Cmd.Text.{Text, trim_space}
use mono_chain.Cmd.ChainId.{parse_chain_id}
use mono_chain.Cmd.ChainId.Grammar.{IsChainId}
use mono_chain.Cmd.ChainId.Parse.{parse_chain_id_iff, parse_chain_id_refused}
use mono_chain.Cmd.NetworkId.{
  FlagSet, set_network_id_flag, resolve_evm_chain_id, uint64_or_overflow,
}

-- What `resolveEVMChainID` has to answer.
pub data Resolved (default_evm_chain_id : ℕ) (fs : FlagSet) : Result ℕ → Type 0 where
  absent :
      ((t : Text) → fs.network_id ≡ ok t → t ≡ [])
      → Resolved default_evm_chain_id fs (ok default_evm_chain_id)
  identifier :
      (t : Text) (n : ℕ)
      → fs.network_id ≡ ok t
      → IsChainId (trim_space t) n
      → n < 2 ^ 64
      → Resolved default_evm_chain_id fs (ok n)
  too_large :
      (t : Text) (n : ℕ)
      → fs.network_id ≡ ok t
      → IsChainId (trim_space t) n
      → 2 ^ 64 ≤ n
      → Resolved default_evm_chain_id fs (err (cmd chain_id_overflow))
  malformed :
      (t : Text)
      → fs.network_id ≡ ok t
      → t ≢ []
      → ((n : ℕ) → ¬ IsChainId (trim_space t) n)
      → Resolved default_evm_chain_id fs (err (cmd invalid_chain_id))

-- Without a network id the EVM chain id is the default; with an identifier it is the EIP-155
-- number of the identifier where that fits 64 bits, and ErrChainIDOverflow where it does not; with
-- any other text it is ErrInvalidChainID.
pub resolve_evm_chain_id-Resolved :
    (default_evm_chain_id : ℕ) (fs : FlagSet)
    → Resolved default_evm_chain_id fs (resolve_evm_chain_id default_evm_chain_id fs)
unfolding resolve_evm_chain_id
resolve_evm_chain_id-Resolved default_evm_chain_id fs = go fs.network_id refl
  where
    parsed :
        (c : ℕ) (cs : Text)
        → fs.network_id ≡ ok (c ∷ cs)
        → Resolved default_evm_chain_id fs (uint64_or_overflow (parse_chain_id (c ∷ cs)))
    parsed c cs e = elim (parse_chain_id_refused (c ∷ cs)) [
      | inr refused ↦ rw refused (
          malformed (c ∷ cs) e (λ q. cc) (λ n i. cc ((parse_chain_id_iff (c ∷ cs) n).1 i, refused)))
      | inl (n, i) ↦ elim (Bool-cases (ltb n (2 ^ 64))) [
        | inl fits ↦
            rw ((parse_chain_id_iff (c ∷ cs) n).1 i, fits)
              (identifier (c ∷ cs) n e i (ground arith))
        | inr over ↦
            rw ((parse_chain_id_iff (c ∷ cs) n).1 i, over) (too_large (c ∷ cs) n e i (ground arith))
      ]
    ]

    go :
        (r : Result Text)
        → fs.network_id ≡ r
        → Resolved default_evm_chain_id fs (elim r [
          | err e ↦ ok default_evm_chain_id
          | ok [] ↦ ok default_evm_chain_id
          | ok (c ∷ cs) ↦ uint64_or_overflow (parse_chain_id (c ∷ cs))
        ])
    go (err e) h = absent (λ t q. cc)
    go (ok []) h = absent (λ t q. cc)
    go (ok (c ∷ cs)) h = parsed c cs h

-- Where `monod init` takes a network id, it becomes the chain id of genesis, --chain-id was not
-- given, and an EVM chain id that it resolves to is the number in that chain id.
pub network_id_agrees :
    (default_evm_chain_id : ℕ) (fs : FlagSet) (t : Text)
    → fs.network_id ≡ ok t
    → t ≢ []
    → (set_network_id_flag fs).0 ≡ ok tt
    → (fs.chain_id_changed ≡ false)
      × ((set_network_id_flag fs).1.chain_id ≡ t)
      × ((n : ℕ)
          → resolve_evm_chain_id default_evm_chain_id fs ≡ ok n
          → IsChainId (trim_space (set_network_id_flag fs).1.chain_id) n)
unfolding set_network_id_flag resolve_evm_chain_id
network_id_agrees default_evm_chain_id fs [] e given done = absurd (given refl)
network_id_agrees default_evm_chain_id fs (c ∷ cs) e given done =
    elim (Bool-cases fs.chain_id_changed) [
      | inl both ↦ absurd (cc (rw (e, both) at done))
      | inr alone ↦ (alone, rw (e, alone), λ n h. rw (e, alone) (resolved n (rw e at h)))
    ]
  where
    resolved :
        (n : ℕ)
        → uint64_or_overflow (parse_chain_id (c ∷ cs)) ≡ ok n
        → IsChainId (trim_space (c ∷ cs)) n
    resolved n h = elim (parse_chain_id_refused (c ∷ cs)) [
      | inr refused ↦ absurd (cc (rw refused at h))
      | inl (m, i) ↦ elim (Bool-cases (ltb m (2 ^ 64))) [
        | inl fits ↦
            let same : ok m ≡ ok n = rw ((parse_chain_id_iff (c ∷ cs) m).1 i, fits) at h in
            let e : m ≡ n = cc same in rw (← e) i
        | inr over ↦ absurd (cc (rw ((parse_chain_id_iff (c ∷ cs) m).1 i, over) at h))
      ]
    ]

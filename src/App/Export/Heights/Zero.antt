-- ===== src/App/Export/Heights/Zero.antt =====
-- `prepForZeroHeightGenesis` as a whole: the redelegations, the unbonding delegations and the
-- signing infos.
use mono_chain.Prelude.{◌≡◌, refl, ◌∙◌, inr, Bool, true, String, List, [], ◌∷◌, All}
use mono_chain.Sdk.Outcome.{
  must-ok, Result, ok, err, Action, and_then, Ensures, >>=-Ensures, Ensures-of, Ensures-ok, ◌>>=◌,
}
use mono_chain.Sdk.Address.{Address}
use mono_chain.App.Export.{
  Delegation, Entry, Validator, SigningInfo, Keepers, Ctx, is_ok, reset_entries, reset_start,
  check_addresses, withdraw_commissions, withdraw_rewards, reinitialize_delegations,
  reinitialize_validator, unless_stopped, reinitialize_validators, reset_validators,
  prep_distribution, prep_unbonding, prep_slashing, prep_for_zero_height_genesis,
}
use mono_chain.App.Export.Heights.{Listed, Settled, rewrite_all-Ensures, reset_entries-All}

module _ (k : Keepers) where
  -- The stores that the theorem is about are as they were.
  data IsKept (c c' : Ctx k) : Type 0 where
    kept :
        c'.redelegations ≡ c.redelegations
        → c'.unbonding_delegations ≡ c.unbonding_delegations
        → c'.signing_infos ≡ c.signing_infos
        → IsKept c c'

  abbrev Keeps : {A : Type 0} → Action (Ctx k) A → Type 0
  Keeps m = (c : Ctx k) → IsKept c (m c).1

  IsKept-trans : {a b c : Ctx k} → IsKept a b → IsKept b c → IsKept a c
  IsKept-trans (kept p q r) (kept p' q' r') = kept (p' ∙ p) (q' ∙ q) (r' ∙ r)

  and_then-IsKept :
      {A B : Type 0} (c : Ctx k) (f : A → Action (Ctx k) B) (p : Result A × Ctx k)
      → IsKept c p.1
      → ((a : A) → Keeps (f a))
      → IsKept c (and_then f p).1
  and_then-IsKept c f (ok a, s) first keeps = IsKept-trans first (keeps a s)
  and_then-IsKept c f (err e, s) first keeps = first

  chain-Keeps :
      {A B : Type 0} (m : Action (Ctx k) A) (f : A → Action (Ctx k) B)
      → Keeps m
      → ((a : A) → Keeps (f a))
      → Keeps (m >>= f)
  unfolding ◌>>=◌
  chain-Keeps m f km kf c = and_then-IsKept c f (m c) (km c) kf

  check_addresses-Keeps : (addrs : List String) → Keeps (check_addresses k addrs)
  unfolding check_addresses
  check_addresses-Keeps [] = λ c. kept refl refl refl
  check_addresses-Keeps (a ∷ addrs) =
      chain-Keeps _ _ (λ c. kept refl refl refl) (λ _. check_addresses-Keeps addrs)

  withdraw_commissions-Keeps : (vs : List (Address × Validator)) → Keeps (withdraw_commissions k vs)
  unfolding withdraw_commissions
  withdraw_commissions-Keeps [] = λ c. kept refl refl refl
  withdraw_commissions-Keeps ((_, v) ∷ vs) =
      chain-Keeps _ _ (λ c. kept refl refl refl)
        (λ _. chain-Keeps _ _ (λ c. kept refl refl refl) (λ _. withdraw_commissions-Keeps vs))

  withdraw_rewards-Keeps : (ds : List Delegation) → Keeps (withdraw_rewards k ds)
  unfolding withdraw_rewards
  withdraw_rewards-Keeps [] = λ c. kept refl refl refl
  withdraw_rewards-Keeps (d ∷ ds) =
      chain-Keeps _ _ (λ c. kept refl refl refl)
        (λ _.
          chain-Keeps _ _ (λ c. kept refl refl refl)
            (λ _. chain-Keeps _ _ (λ c. kept refl refl refl) (λ _. withdraw_rewards-Keeps ds)))

  reinitialize_delegations-Keeps : (ds : List Delegation) → Keeps (reinitialize_delegations k ds)
  unfolding reinitialize_delegations
  reinitialize_delegations-Keeps [] = λ c. kept refl refl refl
  reinitialize_delegations-Keeps (d ∷ ds) =
      chain-Keeps _ _ (λ c. kept refl refl refl)
        (λ _.
          chain-Keeps _ _ (λ c. kept refl refl refl)
            (λ _.
              chain-Keeps _ _ (λ c. kept refl refl refl)
                (λ _.
                  chain-Keeps _ _ (λ c. kept refl refl refl)
                    (λ _. reinitialize_delegations-Keeps ds))))

  reinitialize_validator-Keeps : (v : Validator) → Keeps (reinitialize_validator k v)
  unfolding reinitialize_validator
  reinitialize_validator-Keeps v =
      chain-Keeps _ _ (λ c. kept refl refl refl)
        (λ _.
          chain-Keeps _ _ (λ c. kept refl refl refl)
            (λ _.
              chain-Keeps _ _ (λ c. kept refl refl refl)
                (λ _. chain-Keeps _ _ (λ c. kept refl refl refl) (λ _ c. kept refl refl refl))))

  unless_stopped-IsKept :
      (c : Ctx k) {a b : Ctx k} (r : Result (Unit {0}))
      → IsKept c a
      → IsKept c b
      → IsKept c (unless_stopped k r a b)
  unless_stopped-IsKept c (err e) ia ib = ia
  unless_stopped-IsKept c (ok _) ia ib = ib

  reinitialize_validators-IsKept :
      (vs : List (Address × Validator)) (c : Ctx k) → IsKept c (reinitialize_validators k vs c)
  unfolding reinitialize_validators
  reinitialize_validators-IsKept [] c = kept refl refl refl
  reinitialize_validators-IsKept ((_, v) ∷ vs) c =
      let first = reinitialize_validator-Keeps v c in
      unless_stopped-IsKept c (reinitialize_validator k v c).0 first
        (IsKept-trans first (reinitialize_validators-IsKept vs (reinitialize_validator k v c).1))

  reset_validators-Keeps :
      (allowed : List String) (vs : List (Address × Validator))
      → Keeps (reset_validators k allowed vs)
  unfolding reset_validators
  reset_validators-Keeps allowed [] = λ c. kept refl refl refl
  reset_validators-Keeps allowed ((addr, _) ∷ vs) =
      chain-Keeps _ _ (reset_validators-Keeps allowed vs) (λ _.
        chain-Keeps _ _ (λ c. kept refl refl refl)
          (λ _. chain-Keeps _ _ (λ c. kept refl refl refl) (λ _ c. kept refl refl refl)))

  prep_distribution-Keeps : Keeps (prep_distribution k)
  unfolding prep_distribution
  prep_distribution-Keeps =
      chain-Keeps _ _ (λ c. withdraw_commissions-Keeps (k.validators.entries c.validators) c)
        (λ _.
          chain-Keeps _ _ (λ c. kept refl refl refl)
            (λ dels. chain-Keeps _ _ (withdraw_rewards-Keeps dels) (λ _.
              chain-Keeps _ _ (reinitialize_delegations-Keeps dels) (λ _.
                chain-Keeps _ _ (λ c. kept refl refl refl)
                  (λ _.
                    chain-Keeps _ _ (λ c. kept refl refl refl)
                      (λ _ c.
                        reinitialize_validators-IsKept (k.validators.entries c.validators) c))))))

  abbrev AtZero : Address → List Entry → Type 0
  AtZero key es = All (λ e. e.creation_height ≡ 0) es

  abbrev StartsAtZero : Address → SigningInfo → Type 0
  StartsAtZero key info = info.start_height ≡ 0

  -- The stores after the export, against those before it: everything that was listed is still
  -- there, at height zero.
  pub record IsZeroed (c c' : Ctx k) : Type 0 where
    pub redelegations :
        (key : Address)
        → Listed key (k.redelegations.entries c.redelegations)
        → Settled k.redelegations AtZero key c'.redelegations
    pub unbonding_delegations :
        (key : Address)
        → Listed key (k.unbonding_delegations.entries c.unbonding_delegations)
        → Settled k.unbonding_delegations AtZero key c'.unbonding_delegations
    pub signing_infos :
        (key : Address)
        → Listed key (k.signing_infos.entries c.signing_infos)
        → Settled k.signing_infos StartsAtZero key c'.signing_infos

  -- The part on unbonding, from stores that are those of `c`.
  data IsUnbonded (c c' : Ctx k) : Type 0 where
    unbonded :
        ((key : Address)
          → Listed key (k.redelegations.entries c.redelegations)
          → Settled k.redelegations AtZero key c'.redelegations)
        → ((key : Address)
            → Listed key (k.unbonding_delegations.entries c.unbonding_delegations)
            → Settled k.unbonding_delegations AtZero key c'.unbonding_delegations)
        → c'.signing_infos ≡ c.signing_infos
        → IsUnbonded c c'

  prep_unbonding-Ensures : (c : Ctx k) → Ensures (λ _ c'. IsUnbonded c c') (prep_unbonding k c)
  unfolding prep_unbonding
  prep_unbonding-Ensures c =
      let P : Unit {0} → Ctx k → Type 0 = λ _ c'. IsUnbonded c c' in
      >>=-Ensures P _ _ _ λ _ p1. Ensures-of P _ λ _ p2.
        unbonded
          (λ key listed.
            Ensures-ok (λ _ s. Settled k.redelegations AtZero key s) _
              (rewrite_all-Ensures k.redelegations AtZero reset_entries
                (λ _ es. reset_entries-All es) key (k.redelegations.entries c.redelegations)
                c.redelegations (inr listed))
              p1)
          (λ key listed.
            Ensures-ok (λ _ s. Settled k.unbonding_delegations AtZero key s) _
              (rewrite_all-Ensures k.unbonding_delegations AtZero reset_entries
                (λ _ es. reset_entries-All es) key
                (k.unbonding_delegations.entries c.unbonding_delegations) c.unbonding_delegations
                (inr listed))
              p2)
          refl

  IsUnbonded-after :
      {a c c' d : Ctx k} → IsKept a c → IsUnbonded c c' → IsKept c' d → IsUnbonded a d
  IsUnbonded-after (kept r u s) (unbonded reds unbs infos) (kept r' u' s') =
      unbonded (λ key listed. rw r' (reds key (rw r listed)))
        (λ key listed. rw u' (unbs key (rw u listed))) (s' ∙ infos ∙ s)

  -- x/slashing keeps the signing infos that are there while x/staking updates the validator set.
  module _
      (keeps_infos : (v : k.validators.State) (s : k.signing_infos.State) (d : k.distribution.State)
          (o : k.Other)
        → (k.apply_validator_set_updates (v, s, d, o)).0 ≡ ok tt
        → (key : Address) → Listed key (k.signing_infos.entries s)
        → Listed key
            (k.signing_infos.entries (k.apply_validator_set_updates (v, s, d, o)).1.1)) where
    prep_slashing-Ensures :
        (a c : Ctx k) → IsUnbonded a c → Ensures (λ _ c'. IsZeroed a c') (prep_slashing k c)
    unfolding prep_slashing
    prep_slashing-Ensures a c (unbonded reds unbs infos) =
        let P : Unit {0} → Ctx k → Type 0 = λ _ c'. IsZeroed a c' in
        >>=-Ensures P _ _ _ λ _ p1. Ensures-of P _ λ _ p2. record {
          redelegations = reds;
          unbonding_delegations = unbs;
          signing_infos = λ key listed.
              let applied =
                k.apply_validator_set_updates
                  (c.validators, c.signing_infos, c.distribution, c.other) in
              let there : Listed key (k.signing_infos.entries applied.1.1) =
                keeps_infos c.validators c.signing_infos c.distribution c.other
                  (must-ok applied.0 p1) key (rw infos listed) in
              Ensures-ok (λ _ s. Settled k.signing_infos StartsAtZero key s) _
                (rewrite_all-Ensures k.signing_infos StartsAtZero reset_start (λ _ _. refl) key
                  (k.signing_infos.entries applied.1.1) applied.1.1 (inr there))
                p2;
        }

    is_closed_ok : (r : Result (Unit {0})) (b : Bool) → r ≡ ok tt → ok (is_ok k r) ≡ ok b → b ≡ true
    is_closed_ok (ok _) b h e = cc
    is_closed_ok (err x) b h e = absurd (cc h)

    prep-Ensures :
        (allowed : List String) (c : Ctx k)
        → ((o : k.Other) → k.close_iterator o ≡ ok tt)
        → Ensures (λ _ c'. IsZeroed c c') (prep_for_zero_height_genesis k allowed c)
    unfolding prep_for_zero_height_genesis
    prep-Ensures allowed c closes =
        let P : Unit {0} → Ctx k → Type 0 = λ _ c'. IsZeroed c c' in
        let c1 : Ctx k = (check_addresses k allowed c).1 in
        let c2 : Ctx k = (prep_distribution k c1).1 in
        let c3 : Ctx k = (prep_unbonding k c2).1 in
        let vs = k.validators.entries c3.validators in
        let c4 : Ctx k = (reset_validators k allowed vs c3).1 in
        >>=-Ensures P _ _ _ λ _ p1. >>=-Ensures P _ _ _ λ _ p2. >>=-Ensures P _ _ _ λ _ p3.
          >>=-Ensures P _ _ _ λ _ p4. >>=-Ensures P _ _ _ λ closed p5.
            let before =
              IsKept-trans (check_addresses-Keeps allowed c) (prep_distribution-Keeps c1) in
            let unbonded_c3 =
              Ensures-ok (λ _ c'. IsUnbonded c2 c') _ (prep_unbonding-Ensures c2) p3 in
            let unbonded_c4 =
              IsUnbonded-after before unbonded_c3 (reset_validators-Keeps allowed vs c3) in
            let is_closed : closed ≡ true = is_closed_ok _ closed (closes c4.other) p5 in
            rw is_closed (prep_slashing-Ensures c c4 unbonded_c4)

    -- Where the iterator closes, and the update of the validator set keeps the signing infos, an
    -- export for height zero that returns no error leaves every redelegation and unbonding
    -- delegation that was there with entries created at height zero, and every signing info with a
    -- start height of zero.
    pub prep_for_zero_height_genesis_lem :
        (allowed : List String) (c : Ctx k)
        → ((o : k.Other) → k.close_iterator o ≡ ok tt)
        → (prep_for_zero_height_genesis k allowed c).0 ≡ ok tt
        → IsZeroed c (prep_for_zero_height_genesis k allowed c).1
    prep_for_zero_height_genesis_lem allowed c closes =
        Ensures-ok (λ _ c'. IsZeroed c c') _ (prep-Ensures allowed c closes)

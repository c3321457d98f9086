-- ===== src/App/Export.antt =====
-- app/export.go: the state of the application for a genesis file. The keepers of x/staking,
-- x/distribution and x/slashing are parameters.
pub mod Heights
use mono_chain.Prelude.{
  ℕ, suc, Bool, true, false, not, ◌&&◌, ◌||◌, String, List, [], ◌∷◌, str_eq, if◌then◌else◌,
}
use mono_chain.Sdk.Outcome.{
  Error, panicked, Result, ok, err, Action, pure, lift, return_unless, must, or_panic, ◌>>=◌, ◌>>◌,
}
use mono_chain.Sdk.Collections.{Map}
use mono_chain.Sdk.Address.{Address, Codec}

pub record Delegation : Type 0 where
  pub delegator_address : String
  pub validator_address : String

-- An entry of a redelegation or of an unbonding delegation; `rest` is what the code keeps.
pub record Entry : Type 0 where
  pub creation_height : ℕ
  pub rest : List ℕ

pub record Validator : Type 0 where
  pub operator_address : String
  pub unbonding_height : ℕ
  pub jailed : Bool
  pub rest : List ℕ

pub record SigningInfo : Type 0 where
  pub start_height : ℕ
  pub rest : List ℕ

-- What the code calls on x/distribution. The heights are those of the context that is passed.
pub record Distribution : Type 1 where
  pub State : Type 0
  pub withdraw_validator_commission : (height : ℕ) → Address → State → State
  pub withdraw_delegation_rewards : (height : ℕ) → Address → Address → State → State
  pub before_delegation_created : (height : ℕ) → Address → Address → Action State (Unit {0})
  pub after_delegation_modified : (height : ℕ) → Address → Address → Action State (Unit {0})
  pub delete_all_validator_slash_events : State → State
  pub delete_all_validator_historical_rewards : State → State
  pub Coins : Type 0
  pub add_coins : Coins → Coins → Coins
  pub outstanding_rewards : Address → State → Result Coins
  pub get_community_pool : State → Result Coins
  pub set_community_pool : Coins → Action State (Unit {0})
  pub after_validator_created : (height : ℕ) → Address → Action State (Unit {0})

-- The stores under their store keys, and the rest of what the keepers do. An iteration visits the
-- entries that were there when it was opened.
pub record Keepers : Type 1 where
  pub account_codec : Codec
  pub validator_codec : Codec
  pub distribution : Distribution
  pub validators : Map Address Validator (λ v. v)
  pub redelegations : Map Address (List Entry) (λ v. v)
  pub unbonding_delegations : Map Address (List Entry) (λ v. v)
  pub signing_infos : Map Address SigningInfo (λ v. v)
  pub Other : Type 0
  pub all_delegations : Other → Result (List Delegation)
  pub close_iterator : Other → Result (Unit {0})
  pub apply_validator_set_updates :
      Action (validators.State × signing_infos.State × distribution.State × Other) (Unit {0})

module _ (k : Keepers) where
  open k use {distribution, validators, redelegations, unbonding_delegations, signing_infos}

  pub record Ctx : Type 0 where
    pub height : ℕ
    pub distribution : distribution.State
    pub validators : validators.State
    pub redelegations : redelegations.State
    pub unbonding_delegations : unbonding_delegations.State
    pub signing_infos : signing_infos.State
    pub other : k.Other

-- A loop over the entries of a store, each of which is written back changed.
unfoldable pub rewrite_all :
    {V : Type 0} (m : Map Address V (λ v. v))
    → (V → V)
    → List (Address × V)
    → Action m.State (Unit {0})
rewrite_all m f [] = pure tt
rewrite_all m f ((key, v) ∷ es) = m.set key (f v) >> rewrite_all m f es

-- `red.Entries[i].CreationHeight = 0`, for every `i`
unfoldable pub reset_entries : List Entry → List Entry
reset_entries [] = []
reset_entries (e ∷ es) = record e { creation_height = 0 } ∷ reset_entries es

abbrev pub reset_start : SigningInfo → SigningInfo
reset_start info = record info { start_height = 0 }

-- `allowedAddrsMap[addr]`
unfoldable pub is_member : String → List String → Bool
is_member x [] = false
is_member x (y ∷ ys) = str_eq x y || is_member x ys

abbrev pub any_given : List String → Bool
any_given [] = false
any_given (x ∷ xs) = true

-- What happens to a validator whose address is written `addr`.
abbrev pub reset_validator : List String → String → Validator → Validator
reset_validator allowed addr v = record v {
  unbonding_height = 0;
  jailed = (any_given allowed && not (is_member addr allowed)) || v.jailed;
}

module _ {k : Keepers} where
  abbrev on_distribution : {A : Type 0} → Action k.distribution.State A → Action (Ctx k) A
  on_distribution m c = let (r, s) = m c.distribution in (r, record c { distribution = s })

  abbrev pub on_validators : {A : Type 0} → Action k.validators.State A → Action (Ctx k) A
  on_validators m c = let (r, s) = m c.validators in (r, record c { validators = s })

  abbrev on_redelegations : {A : Type 0} → Action k.redelegations.State A → Action (Ctx k) A
  on_redelegations m c = let (r, s) = m c.redelegations in (r, record c { redelegations = s })

  abbrev on_unbonding : {A : Type 0} → Action k.unbonding_delegations.State A → Action (Ctx k) A
  on_unbonding m c =
      let (r, s) = m c.unbonding_delegations in (r, record c { unbonding_delegations = s })

  abbrev on_signing : {A : Type 0} → Action k.signing_infos.State A → Action (Ctx k) A
  on_signing m c = let (r, s) = m c.signing_infos in (r, record c { signing_infos = s })

  -- A method that returns no error.
  abbrev change : (k.distribution.State → k.distribution.State) → Action (Ctx k) (Unit {0})
  change f c = (ok tt, record c { distribution = f c.distribution })

module _ (k : Keepers) where
  open k use {validator_codec, account_codec}

  -- `log.Fatal` on an address that does not decode
  unfoldable pub check_addresses : List String → Action (Ctx k) (Unit {0})
  check_addresses [] = pure tt
  check_addresses (addr ∷ addrs) =
      lift (must (validator_codec.string_to_bytes addr)) >> check_addresses addrs

  unfoldable pub withdraw_commissions : List (Address × Validator) → Action (Ctx k) (Unit {0})
  withdraw_commissions [] = pure tt
  withdraw_commissions ((_, v) ∷ vs) = do
    val_addr ← lift (must (validator_codec.string_to_bytes v.operator_address))
    λ c. change (k.distribution.withdraw_validator_commission c.height val_addr) c
    withdraw_commissions vs

  unfoldable pub withdraw_rewards : List Delegation → Action (Ctx k) (Unit {0})
  withdraw_rewards [] = pure tt
  withdraw_rewards (d ∷ ds) = do
    val_addr ← lift (must (validator_codec.string_to_bytes d.validator_address))
    del_addr ← lift (must (account_codec.string_to_bytes d.delegator_address))
    λ c. change (k.distribution.withdraw_delegation_rewards c.height del_addr val_addr) c
    withdraw_rewards ds

  unfoldable pub reinitialize_delegations : List Delegation → Action (Ctx k) (Unit {0})
  reinitialize_delegations [] = pure tt
  reinitialize_delegations (d ∷ ds) = do
    val_addr ← lift (must (validator_codec.string_to_bytes d.validator_address))
    del_addr ← lift (must (account_codec.string_to_bytes d.delegator_address))
    or_panic (λ c.
        on_distribution (k.distribution.before_delegation_created c.height del_addr val_addr) c)
    or_panic (λ c.
        on_distribution (k.distribution.after_delegation_modified c.height del_addr val_addr) c)
    reinitialize_delegations ds

  -- The callback on one validator, in a context of height zero.
  unfoldable pub reinitialize_validator : Validator → Action (Ctx k) (Unit {0})
  reinitialize_validator v = do
    val_addr ← lift (validator_codec.string_to_bytes v.operator_address)
    rewards ← λ c. (k.distribution.outstanding_rewards val_addr c.distribution, c)
    pool ← λ c. (k.distribution.get_community_pool c.distribution, c)
    on_distribution (k.distribution.set_community_pool (k.distribution.add_coins pool rewards))
    on_distribution (k.distribution.after_validator_created 0 val_addr)

  abbrev pub unless_stopped : Result (Unit {0}) → Ctx k → Ctx k → Ctx k
  unless_stopped (err e) stopped rest = stopped
  unless_stopped (ok _) stopped rest = rest

  -- The loop ends at the first error, and forgets it.
  unfoldable pub reinitialize_validators : List (Address × Validator) → Ctx k → Ctx k
  reinitialize_validators [] c = c
  reinitialize_validators ((_, v) ∷ vs) c =
      let rest = reinitialize_validators vs (reinitialize_validator v c).1 in
      unless_stopped (reinitialize_validator v c).0 (reinitialize_validator v c).1 rest

  -- The loop over the keys of the validators, from the last to the first.
  unfoldable pub reset_validators :
      List String → List (Address × Validator) → Action (Ctx k) (Unit {0})
  reset_validators allowed [] = pure tt
  reset_validators allowed ((addr, _) ∷ vs) = do
    reset_validators allowed vs
    validator ← λ c. (k.validators.get addr c.validators, c)
    text ← lift (validator_codec.bytes_to_string addr)
    on_validators (k.validators.set addr (reset_validator allowed text validator))

  abbrev pub apply_updates : Action (Ctx k) (Unit {0})
  apply_updates c =
      let (r, s) =
        k.apply_validator_set_updates (c.validators, c.signing_infos, c.distribution, c.other) in
      (r, record c { validators = s.0; signing_infos = s.1; distribution = s.2; other = s.3 })

  abbrev pub is_ok : Result (Unit {0}) → Bool
  is_ok (ok _) = true
  is_ok (err e) = false

  -- The part on the fees.
  unfoldable pub prep_distribution : Action (Ctx k) (Unit {0})
  unfolding withdraw_commissions withdraw_rewards reinitialize_delegations reinitialize_validators
  prep_distribution = do
    λ c. withdraw_commissions (k.validators.entries c.validators) c
    dels ← λ c. (k.all_delegations c.other, c)
    withdraw_rewards dels
    reinitialize_delegations dels
    change k.distribution.delete_all_validator_slash_events
    change k.distribution.delete_all_validator_historical_rewards
    λ c. (ok tt, reinitialize_validators (k.validators.entries c.validators) c)

  -- The loops over the redelegations and the unbonding delegations.
  unfoldable pub prep_unbonding : Action (Ctx k) (Unit {0})
  prep_unbonding = do
    λ c.
        on_redelegations
          (rewrite_all k.redelegations reset_entries (k.redelegations.entries c.redelegations)) c
    λ c.
        on_unbonding
          (rewrite_all k.unbonding_delegations reset_entries
            (k.unbonding_delegations.entries c.unbonding_delegations))
          c

  -- After the loop over the validators; the iterator may fail to close.
  unfoldable pub prep_slashing : Action (Ctx k) (Unit {0})
  prep_slashing = do
    or_panic apply_updates
    λ c.
        on_signing
          (rewrite_all k.signing_infos reset_start (k.signing_infos.entries c.signing_infos)) c

  -- `App.prepForZeroHeightGenesis`
  unfoldable pub prep_for_zero_height_genesis : List String → Action (Ctx k) (Unit {0})
  prep_for_zero_height_genesis jail_allowed_addrs = do
    check_addresses jail_allowed_addrs
    prep_distribution
    prep_unbonding
    λ c. reset_validators jail_allowed_addrs (k.validators.entries c.validators) c
    closed ← λ c. (ok (is_ok (k.close_iterator c.other)), c)
    return_unless closed prep_slashing

pub record ExportedApp (AppState Power : Type 0) : Type 0 where
  pub app_state : AppState
  pub validators : List Power
  pub height : ℕ

-- What the module manager exports for some modules, and what x/staking writes of the validators.
module _ (k : Keepers) {AppState Power : Type 0}
    (export_genesis_for_modules : List String → Ctx k → Result AppState)
    (write_validators : Ctx k → Result (List Power)) where
  -- `App.ExportAppStateAndValidators` of a state after `last_block_height` blocks, without the
  -- consensus parameters
  unfoldable pub export_app_state_and_validators :
      (last_block_height : ℕ) (for_zero_height : Bool) (jail_allowed_addrs modules : List String)
      → Action (Ctx k) (ExportedApp AppState Power)
  export_app_state_and_validators last_block_height for_zero_height jail_allowed_addrs modules = do
    return_unless for_zero_height (prep_for_zero_height_genesis k jail_allowed_addrs)
    app_state ← λ c. (export_genesis_for_modules modules c, c)
    validators ← λ c. (write_validators c, c)
    pure (record {
      app_state = app_state;
      validators = validators;
      height = if for_zero_height then 0 else suc last_block_height;
    })

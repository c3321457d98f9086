-- ===== src/App/Accounts.antt =====
-- app/config.go and app/genesis_account.go: the module accounts, the addresses that cannot receive
-- funds, and the accounts of a genesis file.
use mono_chain.Prelude.{
  ◌≡◌, ◌↔◌, ◌⊎◌, inl, inr, refl, Bool, true, false, not, ◌&&◌, ◌||◌, String, List, [], ◌∷◌, ◌++◌,
  map, str_eq, eq_iff, Bool-cases, if◌then◌else◌,
}
use mono_chain.Prelude.Int.{ℤ, ltb_ℤ}
use mono_chain.Sdk.Outcome.{first_error, Result, ok, err, Error, library}

-- `maccPerms`
unfoldable pub macc_perms : List (String × List String)
macc_perms =
    ("fee_collector", [])
    ∷ ("distribution", [])
    ∷ ("protocolpool", [])
    ∷ ("protocolpool_escrow", [])
    ∷ ("bonded_tokens_pool", "burner" ∷ "staking" ∷ [])
    ∷ ("not_bonded_tokens_pool", "burner" ∷ "staking" ∷ [])
    ∷ ("burn", "burner" ∷ [])
    ∷ ("validator", [])
    ∷ ("mint", "minter" ∷ [])
    ∷ ("evm", "minter" ∷ "burner" ∷ [])
    ∷ ("erc20", "minter" ∷ "burner" ∷ [])
    ∷ ("feemarket", [])
    ∷ ("transfer", "minter" ∷ "burner" ∷ [])
    ∷ ("gov", "burner" ∷ [])
    ∷ []

-- `blockAccAddrs`
unfoldable pub block_acc_addrs : List String
block_acc_addrs =
    "fee_collector" ∷ "distribution" ∷ "bonded_tokens_pool" ∷ "not_bonded_tokens_pool" ∷ []

-- A map from addresses to `true`, as the addresses that were put into it.
unfoldable pub is_blocked : String → List String → Bool
is_blocked a [] = false
is_blocked a (b ∷ bs) = str_eq a b || is_blocked a bs

unfoldable pub names : List (String × List String) → List String
names [] = []
names ((n, _) ∷ ps) = n ∷ names ps

-- The modules whose accounts are blocked: those of the list, or all where it is empty.
abbrev pub blocked_modules : List String → List (String × List String) → List String
blocked_modules [] perms = names perms
blocked_modules (n ∷ ns) perms = n ∷ ns

-- `BlockedAddresses`. The address of a module, the precompiles of cosmos/evm and of go-ethereum
-- and their addresses in bech32 come from those libraries.
unfoldable pub blocked_addresses :
    (module_address : String → String) (static_precompiles prague_precompiles : List String)
    (bech32_from_hex : String → String)
    → List String
unfolding block_acc_addrs macc_perms names
blocked_addresses module_address static_precompiles prague_precompiles bech32_from_hex =
    map module_address (blocked_modules block_acc_addrs macc_perms)
    ++ map bech32_from_hex (static_precompiles ++ prague_precompiles)

-- One of the list is sent to `a` by `f`.
abbrev pub Reaches : (String → String) → String → List String → Type 0
Reaches f a [] = ⊥
Reaches f a (x ∷ xs) = (a ≡ f x) ⊎ Reaches f a xs

or_blocked :
    {R : Type 0} (a x : String) (xs : List String)
    → (is_blocked a xs ≡ true) ↔ R
    → (is_blocked a (x ∷ xs) ≡ true) ↔ ((a ≡ x) ⊎ R)
unfolding is_blocked
or_blocked a x xs rest = elim (Bool-cases (str_eq a x)) [
  | inl same ↦ (λ h. inl ((eq_iff a x).0 same), λ h. rw same)
  | inr other ↦ (
    λ h. inr (rest.0 (rw other at h)),
    λ h. elim h [
      | inl e ↦ absurd (cc (other, (eq_iff a x).1 e))
      | inr later ↦ rw other (rest.1 later)
    ],
  )
]

is_blocked-map :
    (f : String → String) (a : String) (xs : List String)
    → (is_blocked a (map f xs) ≡ true) ↔ Reaches f a xs
unfolding is_blocked
is_blocked-map f a [] = (λ h. absurd (cc h), λ h. absurd h)
is_blocked-map f a (x ∷ xs) = or_blocked a (f x) (map f xs) (is_blocked-map f a xs)

-- The blocked addresses are exactly those of the fee collector, of x/distribution and of the two
-- staking pools, and those of the precompiles.
pub blocked_addresses_iff :
    (module_address : String → String) (static_precompiles prague_precompiles : List String)
    (bech32_from_hex : String → String) (a : String)
    → (is_blocked a
          (blocked_addresses module_address static_precompiles prague_precompiles bech32_from_hex)
        ≡ true)
      ↔ ((a ≡ module_address "fee_collector")
          ⊎ (a ≡ module_address "distribution")
          ⊎ (a ≡ module_address "bonded_tokens_pool")
          ⊎ (a ≡ module_address "not_bonded_tokens_pool")
          ⊎ Reaches bech32_from_hex a (static_precompiles ++ prague_precompiles))
unfolding blocked_addresses block_acc_addrs
blocked_addresses_iff module_address static_precompiles prague_precompiles bech32_from_hex a =
    or_blocked a _ _ (
      or_blocked a _ _ (
        or_blocked a _ _ (
          or_blocked a _ _
            (is_blocked-map bech32_from_hex a (static_precompiles ++ prague_precompiles)))))

-- `GenesisAccount`; the base account is an account of x/auth.
pub record GenesisAccount (BaseAccount Coins : Type 0) : Type 0 where
  pub base_account : BaseAccount
  pub original_vesting : Coins
  pub delegated_free : Coins
  pub delegated_vesting : Coins
  pub start_time : ℤ
  pub end_time : ℤ
  pub module_name : String
  pub module_permissions : List String

module _ {BaseAccount Coins : Type 0} (coins_are_zero : Coins → Bool)
    (validate_module_account : BaseAccount → String → List String → Result (Unit {0}))
    (validate_base_account : BaseAccount → Result (Unit {0})) where
  abbrev vesting_error : Error
  vesting_error = library "vesting start-time cannot be before end-time"

  -- `GenesisAccount.Validate`
  unfoldable pub validate_genesis_account : GenesisAccount BaseAccount Coins → Result (Unit {0})
  validate_genesis_account sga =
      first_error
        (if not (coins_are_zero sga.original_vesting) && not (ltb_ℤ sga.start_time sga.end_time)
          then err vesting_error
          else ok tt)
        (first_error
          (if not (str_eq sga.module_name "")
            then validate_module_account sga.base_account sga.module_name sga.module_permissions
            else ok tt)
          (validate_base_account sga.base_account))

  first_error_iff :
      (x y : Result (Unit {0})) → (first_error x y ≡ ok tt) ↔ ((x ≡ ok tt) × (y ≡ ok tt))
  first_error_iff (err e) y = (λ h. absurd (cc h), λ h. absurd (cc h.0))
  first_error_iff (ok _) y = (λ h. (refl, h), λ h. h.1)

  vests_iff :
      (x y : Bool) (e : Error)
      → (◌≡◌ {A = Result (Unit {0})} (if not x && not y then err e else ok tt) (ok tt))
        ↔ ((x ≡ true) ⊎ (y ≡ true))
  vests_iff true y e = (λ _. inl refl, λ _. refl)
  vests_iff false true e = (λ _. inr refl, λ _. refl)
  vests_iff false false e =
      (λ h. absurd (cc h), λ h. elim h [ inl q ↦ absurd (cc q) | inr q ↦ absurd (cc q) ])

  named_iff :
      (b : Bool) (r : Result (Unit {0}))
      → (◌≡◌ {A = Result (Unit {0})} (if not b then r else ok tt) (ok tt))
        ↔ ((b ≡ true) ⊎ (r ≡ ok tt))
  named_iff true r = (λ _. inl refl, λ _. refl)
  named_iff false r = (λ h. inr h, λ h. elim h [ inl q ↦ absurd (cc q) | inr q ↦ q ])

  -- An account of a genesis file is accepted exactly where it vests nothing or starts before it
  -- ends, its module account is valid if it has a module name, and its base account is valid.
  pub validate_genesis_account_iff :
      (sga : GenesisAccount BaseAccount Coins)
      → (validate_genesis_account sga ≡ ok tt) ↔ (
          ((coins_are_zero sga.original_vesting ≡ true)
            ⊎ (ltb_ℤ sga.start_time sga.end_time ≡ true))
          × ((sga.module_name ≡ "")
              ⊎ (validate_module_account sga.base_account sga.module_name sga.module_permissions
                  ≡ ok tt))
          × (validate_base_account sga.base_account ≡ ok tt))
  unfolding validate_genesis_account
  validate_genesis_account_iff sga =
      let vests =
        vests_iff (coins_are_zero sga.original_vesting) (ltb_ℤ sga.start_time sga.end_time)
          vesting_error in
      let named =
        named_iff (str_eq sga.module_name "")
          (validate_module_account sga.base_account sga.module_name sga.module_permissions) in
      let empty = eq_iff sga.module_name "" in
      (
        λ h.
            let (v, rest) = (first_error_iff _ _).0 h in
            let (m, base) = (first_error_iff _ _).0 rest in
            (vests.0 v, elim (named.0 m) [ inl e ↦ inl (empty.0 e) | inr good ↦ inr good ], base),
        λ (v, m, base). (first_error_iff _ _).1 (
          vests.1 v,
          (first_error_iff _ _).1
              (named.1 (elim m [ inl e ↦ inl (empty.1 e) | inr good ↦ inr good ]), base),
        ),
      )

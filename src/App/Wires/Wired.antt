-- ===== src/App/Wires/Wired.antt =====
-- What `New` leaves: who was given which keeper, and that it was there.
use mono_chain.Prelude.{
  ◌≡◌, refl, Bool, true, false, ◌&&◌, not, String, Option, none, some, List, [], ◌∷◌, ◌++◌, map,
  ◌⊎◌, inl, inr, arith,
}
use mono_chain.Sdk.Outcome.{Error, Result, ok, err, panicked, ◌>>=◌}
use mono_chain.Sdk.Address.{Address}
use mono_chain.App.Wires.{
  Field, callback, staking, distr, slashing, Kept, Wires, nothing, find, hooks_of,
}
use mono_chain.App.Accounts.{is_blocked}
use mono_chain.App.Blocks.{pre_blockers, begin_blockers, end_blockers, genesis_module_order}
use mono_chain.App.Wires.Make.{Environment, store_keys, transient_keys}
use mono_chain.App.Wires.Modules.{new_keepers}

abbrev pub store_of : Option String → List String → List String
store_of none rest = rest
store_of (some s) rest = s ∷ rest

-- A keeper that was given by value was there, and has the hooks of the keeper in the field.
abbrev pub IsCurrent : (given now : Option (List Field)) → Type 0
IsCurrent none now = ⊥
IsCurrent (some hs) none = ⊥
IsCurrent (some hs) (some hs') = hs ≡ hs'

abbrev pub AreCurrent : List (Field × Kept) → List (Field × Option (List Field)) → Type 0
AreCurrent fields [] = Unit {0}
AreCurrent fields ((f, given) ∷ r) =
    IsCurrent given (hooks_of (find f fields)) × AreCurrent fields r

abbrev pub IsThere : Option Kept → Type 0
IsThere none = ⊥
IsThere (some k) = Unit {0}

abbrev pub AreThere : List (Field × Kept) → List Field → Type 0
AreThere fields [] = Unit {0}
AreThere fields (f ∷ r) = IsThere (find f fields) × AreThere fields r

abbrev pub IsGoverned : Address → Option Address → Type 0
IsGoverned auth_addr none = Unit {0}
IsGoverned auth_addr (some a) = a ≡ auth_addr

abbrev pub AreWired : {A : Type 0} → Address → List (Field × Kept) → List (A × Kept) → Type 0
AreWired auth_addr fields [] = Unit {0}
AreWired auth_addr fields ((name, k) ∷ r) =
    AreCurrent fields k.values
    × AreThere fields k.pointers
    × IsGoverned auth_addr k.authority
    × AreWired auth_addr fields r

abbrev pub stores : List (Field × Kept) → List String
stores [] = []
stores ((f, k) ∷ r) = store_of k.store (stores r)

abbrev pub transients : List (Field × Kept) → List String
transients [] = []
transients ((f, k) ∷ r) = store_of k.transient (transients r)

-- Each of the first list is in the second; and no two of a list are one.
abbrev pub all_among : (xs ys : List String) → Bool
all_among [] ys = true
all_among (x ∷ xs) ys = is_blocked x ys && all_among xs ys

abbrev pub are_apart : List String → Bool
are_apart [] = true
are_apart (x ∷ xs) = not (is_blocked x xs) && are_apart xs

abbrev pub labels : List (String × Kept) → List String
labels = map (λ h. h.0)

pub record IsWired (auth_addr : Address) (w : Wires) : Type 0 where
  -- Each field of `App` has a keeper, and each keeper has what it was given.
  pub made : (f : Field) → IsThere (find f w.fields)
  pub keepers : AreWired auth_addr w.fields w.fields
  pub others : AreWired auth_addr w.fields w.holders
  pub hooked : hooks_of (find staking w.fields) ≡ some (distr ∷ slashing ∷ [])
  -- No two keepers share a store, and the stores are those that are mounted.
  pub apart : are_apart (stores w.fields) ≡ true
  pub mounted : all_among (stores w.fields) store_keys ≡ true
  pub used : all_among store_keys (stores w.fields) ≡ true
  pub transients_mounted : all_among (transients w.fields) transient_keys ≡ true
  pub transients_apart : are_apart (transients w.fields) ≡ true
  -- Each module that is called at genesis or in a block was given to the manager.
  pub at_genesis : all_among genesis_module_order (labels w.holders) ≡ true
  pub in_blocks :
      all_among (pre_blockers ++ begin_blockers ++ end_blockers) (labels w.holders) ≡ true

module _ (streaming : Result (Unit {0})) (auth_addr : Address) where
  abbrev with_answers : Bool → Result (Unit {0}) → Result Address → Environment
  with_answers versiondb tx_config decoded = record {
    register_streaming_services = streaming;
    versiondb_enable = versiondb;
    new_tx_config_with_options = tx_config;
    decode_authority = decoded;
  }

  new_keepers_sets :
      (u : Unit {0}) (b : Address) (f : Field)
      → IsThere (find f (new_keepers (with_answers false (ok u) (ok b)) auth_addr nothing).1.fields)
  unfolding new_keepers ◌>>=◌
  new_keepers_sets u b callback = tt
  new_keepers_sets u b _ = tt

  new_keepers-IsWired :
      (u : Unit {0}) (b : Address)
      → IsWired auth_addr (new_keepers (with_answers false (ok u) (ok b)) auth_addr nothing).1
  unfolding new_keepers ◌>>=◌ store_keys transient_keys genesis_module_order pre_blockers
      begin_blockers end_blockers is_blocked
  new_keepers-IsWired u b = record {
    made = new_keepers_sets u b;
    keepers = ground arith;
    others = ground arith;
    hooked = refl;
    apart = refl;
    mounted = refl;
    used = refl;
    transients_mounted = refl;
    transients_apart = refl;
    at_genesis = refl;
    in_blocks = refl;
  }

  by_answers :
      (versiondb : Bool) (tx_config : Result (Unit {0})) (decoded : Result Address)
      → let env = with_answers versiondb tx_config decoded in
        (versiondb ≡ false
          → tx_config ≡ ok tt
          → (b : Address) → decoded ≡ ok b
          → ((new_keepers env auth_addr nothing).0 ≡ ok tt)
            × IsWired auth_addr (new_keepers env auth_addr nothing).1)
        × ((versiondb ≡ true) ⊎ ((e : Error) × ((tx_config ≡ err e) ⊎ (decoded ≡ err e)))
            → (new_keepers env auth_addr nothing).0 ≡ err panicked)
  unfolding new_keepers ◌>>=◌
  by_answers true tx_config decoded = (λ e _ _ _. absurd (cc e), λ _. refl)
  by_answers false (err e) decoded = (λ _ h _ _. absurd (cc h), λ _. refl)
  by_answers false (ok u) (err e) = (λ _ _ _ h. absurd (cc h), λ _. refl)
  by_answers false (ok u) (ok b) = (
    λ _ _ _ _. (refl, new_keepers-IsWired u b),
    λ h. elim h [
      | inl e ↦ absurd (cc e)
      | inr (x, inl e) ↦ absurd (cc e)
      | inr (x, inr e) ↦ absurd (cc e)
    ],
  )

-- `New` panics where the version database is asked for , there is no transaction configuration
-- or the authority does not decode, whatever state streaming answers. Otherwise each keeper is made; every keeper that is given by
-- value was there, with the hooks that the one in the field of `App` has in the end, and every
-- pointer leads to a keeper; x/staking has the hooks of x/distribution and x/slashing; each
-- authority is the one address; no two keepers share a store or a transient store, these are those that are
-- mounted,
-- and each module in the orders of genesis and of a block was given to the manager.
pub new_keepers_lem :
    (env : Environment) (auth_addr : Address)
    → (env.versiondb_enable ≡ false
        → env.new_tx_config_with_options ≡ ok tt
        → (b : Address) → env.decode_authority ≡ ok b
        → ((new_keepers env auth_addr nothing).0 ≡ ok tt)
          × IsWired auth_addr (new_keepers env auth_addr nothing).1)
      × ((env.versiondb_enable ≡ true)
            ⊎ ((e : Error) × ((env.new_tx_config_with_options ≡ err e)
                  ⊎ (env.decode_authority ≡ err e)))
          → (new_keepers env auth_addr nothing).0 ≡ err panicked)
new_keepers_lem env auth_addr =
    by_answers env.register_streaming_services auth_addr env.versiondb_enable
      env.new_tx_config_with_options env.decode_authority

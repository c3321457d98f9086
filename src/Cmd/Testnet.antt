-- ===== src/Cmd/Testnet.antt =====
-- cmd/monod/cmd/testnet.go: a chain taken over by one validator.
pub mod Takeover
use mono_chain.Prelude.{
  ℕ, ◌≡◌, not, Bool, true, false, String, List, [], ◌∷◌, ◌++◌, bytes_eq, ◌==◌, if◌then◌else◌,
}
use mono_chain.Sdk.Outcome.{
  Error, library, panicked, Result, ok, err, Action, pure, lift, ◌>>=◌, ◌>>◌,
}
use mono_chain.Sdk.Address.{Address}
use mono_chain.Cmd.Text.{Text}

-- What `appOpts.Get` may return: a value of one of the types that the code asks for, or another.
pub data Value : Type 0 where
  hex_bytes : List ℕ → Value
  pub_key : List ℕ → Value
  text : Text → Value
  other : Value

-- The values of the options by their keys, and `cast.ToString`.
pub record AppOptions : Type 0 where
  pub new_val_addr : Value
  pub user_pub_key : Value
  pub new_op_addr : Value
  pub trigger_testnet_upgrade : Value
  pub accounts_to_fund : Value
  pub home : Value
  pub to_string : Value → Text

pub record ValArgs : Type 0 where
  pub new_val_addr : List ℕ
  pub new_operator_address : Text
  pub new_val_pub_key : List ℕ
  pub accounts_to_fund : List Text
  pub upgrade_to_trigger : Text
  pub home_dir : Text

abbrev pub as_hex_bytes : Value → Result (List ℕ)
as_hex_bytes (hex_bytes b) = ok b
as_hex_bytes (pub_key k) = err (library "newValAddr is not of type bytes.HexBytes")
as_hex_bytes (text t) = err (library "newValAddr is not of type bytes.HexBytes")
as_hex_bytes Value.other = err (library "newValAddr is not of type bytes.HexBytes")

abbrev pub as_pub_key : Value → Result (List ℕ)
as_pub_key (hex_bytes b) = err (library "newValPubKey is not of type crypto.PubKey")
as_pub_key (pub_key k) = ok k
as_pub_key (text t) = err (library "newValPubKey is not of type crypto.PubKey")
as_pub_key Value.other = err (library "newValPubKey is not of type crypto.PubKey")

abbrev pub as_text : String → Value → Result Text
as_text message (hex_bytes b) = err (library message)
as_text message (pub_key k) = err (library message)
as_text message (text t) = ok t
as_text message Value.other = err (library message)

abbrev pub onto_first : ℕ → List Text → List Text
onto_first c [] = (c ∷ []) ∷ []
onto_first c (t ∷ ts) = (c ∷ t) ∷ ts

-- `strings.Split(s, ",")`
unfoldable pub split_commas : Text → List Text
split_commas [] = [] ∷ []
split_commas (c ∷ cs) =
    let rest = split_commas cs in if c == 44 then [] ∷ rest else onto_first c rest

abbrev pub no_empty_home : Text → Result Text
no_empty_home [] = err (library "invalid home dir")
no_empty_home (c ∷ cs) = ok (c ∷ cs)

-- `getCommandArgs`, which reads no store
unfoldable pub get_command_args : AppOptions → Action (Unit {0}) ValArgs
unfolding split_commas
get_command_args o = do
  new_val_addr ← lift (as_hex_bytes o.new_val_addr)
  new_val_pub_key ← lift (as_pub_key o.user_pub_key)
  new_operator_address ← lift (as_text "newOperatorAddress is not of type string" o.new_op_addr)
  upgrade_to_trigger ←
      lift (as_text "upgradeToTrigger is not of type string" o.trigger_testnet_upgrade)
  home_dir ← lift (no_empty_home (o.to_string o.home))
  pure (record {
    new_val_addr = new_val_addr;
    new_operator_address = new_operator_address;
    new_val_pub_key = new_val_pub_key;
    accounts_to_fund = split_commas (o.to_string o.accounts_to_fund);
    upgrade_to_trigger = upgrade_to_trigger;
    home_dir = home_dir;
  })

-- The keys and values of the staking store under the four prefixes that the code clears.
abbrev pub Prefix : Type 0
Prefix = List (Address × List ℕ)

pub record Stores : Type 0 where
  pub power : Prefix
  pub last : Prefix
  pub validators : Prefix
  pub queue : Prefix

-- `stakingStore.Delete(key)`
unfoldable pub delete : Address → Prefix → Prefix
delete key [] = []
delete key ((j, v) ∷ es) =
    let rest = delete key es in if bytes_eq key j then rest else (j, v) ∷ rest

-- The loop that deletes the key of every entry that the iterator visits.
unfoldable pub delete_all : (visited : Prefix) → Prefix → Prefix
unfolding delete
delete_all [] store = store
delete_all ((key, _) ∷ es) store = delete_all es (delete key store)

-- After `f` returned no error, one entry is under the prefix `get` where there was none, and the
-- other prefixes are as they were.
pub record Adds (s s' : Stores) (get : Stores → Prefix) : Type 0 where
  pub key : Address
  pub value : List ℕ
  pub added : get s ≡ [] → get s' ≡ (key, value) ∷ []

pub record Keepers : Type 1 where
  pub operator_codec : Text → Result Address
  pub account_codec : Text → Result Address
  pub pack_key : List ℕ → Result (List ℕ)
  -- x/staking, for the new validator with an operator address and a packed key
  pub set_validator : Text → List ℕ → Action Stores (Unit {0})
  pub set_validator_by_power_index : Text → List ℕ → Action Stores (Unit {0})
  pub set_last_validator_power : Address → ℕ → Action Stores (Unit {0})
  pub set_validator_adds :
      (o : Text) (key : List ℕ) (s : Stores)
      → (set_validator o key s).0 ≡ ok tt
      → let s' = (set_validator o key s).1 in
        Adds s s' (λ x. x.validators)
        × (s'.power ≡ s.power)
        × (s'.last ≡ s.last)
        × (s'.queue ≡ s.queue)
  pub set_validator_by_power_index_adds :
      (o : Text) (key : List ℕ) (s : Stores)
      → (set_validator_by_power_index o key s).0 ≡ ok tt
      → let s' = (set_validator_by_power_index o key s).1 in
        Adds s s' (λ x. x.power)
        × (s'.validators ≡ s.validators)
        × (s'.last ≡ s.last)
        × (s'.queue ≡ s.queue)
  pub set_last_validator_power_adds :
      (a : Address) (n : ℕ) (s : Stores)
      → (set_last_validator_power a n s).0 ≡ ok tt
      → let s' = (set_last_validator_power a n s).1 in
        Adds s s' (λ x. x.last)
        × (s'.validators ≡ s.validators)
        × (s'.power ≡ s.power)
        × (s'.queue ≡ s.queue)
  -- the rest of the state: the index by consensus address, the hooks, x/distribution, x/bank
  pub Other : Type 0
  pub set_validator_by_cons_addr : Text → List ℕ → Action Other (Unit {0})
  pub after_validator_created : Address → Action Other (Unit {0})
  pub init_distribution : Address → Action Other (Unit {0})
  pub bond_denom : Other → Result Text
  pub mint : Text → Action Other (Unit {0})
  pub send_minted : Address → Text → Action Other (Unit {0})

module _ (k : Keepers) where
  pub record Ctx : Type 0 where
    pub stores : Stores
    pub other : k.Other

-- `handleErr` ends the program on an error.
abbrev pub exit_on : {A : Type 0} → Result A → Result A
exit_on (ok a) = ok a
exit_on (err e) = err panicked

abbrev pub or_exit : {S A : Type 0} → Result A × S → Result A × S
or_exit p = (exit_on p.0, p.1)

module _ {k : Keepers} where
  abbrev pub on_stores : {A : Type 0} → Action Stores A → Action (Ctx k) A
  on_stores m c = let (r, s) = or_exit (m c.stores) in (r, record c { stores = s })

  abbrev pub on_other : {A : Type 0} → Action k.Other A → Action (Ctx k) A
  on_other m c = let (r, s) = or_exit (m c.other) in (r, record c { other = s })

  abbrev pub read : {A : Type 0} → Result A → Action (Ctx k) A
  read r c = or_exit (r, c)

module _ (k : Keepers) where
  -- The four loops that clear the staking store.
  unfoldable pub clear_validators : Stores → Stores
  unfolding delete_all
  clear_validators s = record {
    power = delete_all s.power s.power;
    last = delete_all s.last s.last;
    validators = delete_all s.validators s.validators;
    queue = delete_all s.queue s.queue;
  }

  -- The loop over the accounts, each of which gets the same coins.
  unfoldable pub fund_accounts : (denom : Text) → List Text → Action (Ctx k) (Unit {0})
  fund_accounts denom [] = pure tt
  fund_accounts denom (account_str ∷ accounts) = do
    on_other (k.mint denom)
    account ← read (k.account_codec account_str)
    on_other (k.send_minted account denom)
    fund_accounts denom accounts

  -- `initAppForTestnet`
  unfoldable pub init_app_for_testnet : ValArgs → Action (Ctx k) (Unit {0})
  unfolding clear_validators fund_accounts
  init_app_for_testnet args = do
    key ← read (k.pack_key args.new_val_pub_key)
    validator ← read (k.operator_codec args.new_operator_address)
    λ c. (ok tt, record c { stores = clear_validators c.stores })
    on_stores (k.set_validator args.new_operator_address key)
    on_other (k.set_validator_by_cons_addr args.new_operator_address key)
    on_stores (k.set_validator_by_power_index args.new_operator_address key)
    on_stores (k.set_last_validator_power validator 0)
    on_other (k.after_validator_created validator)
    on_other (k.init_distribution validator)
    bond_denom ← λ c. or_exit (k.bond_denom c.other, c)
    fund_accounts bond_denom args.accounts_to_fund

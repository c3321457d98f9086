-- ===== src/Cmd/Testnet/Takeover.antt =====
-- Who is in the validator set after `initAppForTestnet`, and what it needs of the accounts.
use mono_chain.Prelude.{
  ℕ, ◌≡◌, refl, ap, ◌∙◌, ◌⊎◌, inl, inr, List, [], ◌∷◌, bytes_eq, bytes_eq_self, Bool-cases,
}
use mono_chain.Sdk.Outcome.{Error, Result, ok, err, Ensures, >>=-Ensures, Ensures-ok}
use mono_chain.Sdk.Address.{Address}
use mono_chain.Cmd.Text.{Text}
use mono_chain.Cmd.Testnet.{
  AppOptions, split_commas, get_command_args, Prefix, Stores, Keepers, Ctx, ValArgs, exit_on,
  delete, delete_all, clear_validators, fund_accounts, init_app_for_testnet,
}

abbrev Visited : Address → Prefix → Type 0
Visited key [] = ⊥
Visited key ((j, v) ∷ es) = (key ≡ j) ⊎ Visited key es

-- Every key of the store is visited.
abbrev Within : Prefix → Prefix → Type 0
Within es [] = Unit {0}
Within es ((j, v) ∷ store) = Visited j es × Within es store

Within-later :
    (key : Address) (v : List ℕ) (es store : Prefix)
    → Within es store
    → Within ((key, v) ∷ es) store
Within-later key v es [] w = tt
Within-later key v es ((j, u) ∷ store) (here, w) = (inr here, Within-later key v es store w)

Within-self : (es : Prefix) → Within es es
Within-self [] = tt
Within-self ((key, v) ∷ es) = (inl refl, Within-later key v es es (Within-self es))

Within-delete :
    (key : Address) (v : List ℕ) (es store : Prefix)
    → Within ((key, v) ∷ es) store
    → Within es (delete key store)
unfolding delete
Within-delete key v es [] w = tt
Within-delete key v es ((j, u) ∷ store) (here, w) = elim (Bool-cases (bytes_eq key j)) [
  | inl same ↦ rw same (Within-delete key v es store w)
  | inr other ↦ elim here [
    | inl e ↦ absurd (cc (other, bytes_eq_self key, e))
    | inr later ↦ rw other (later, Within-delete key v es store w)
  ]
]

delete_all_empties : (es store : Prefix) → Within es store → delete_all es store ≡ []
unfolding delete_all
delete_all_empties [] [] w = refl
delete_all_empties [] ((j, u) ∷ store) (here, w) = absurd here
delete_all_empties ((key, v) ∷ es) store w =
    delete_all_empties es (delete key store) (Within-delete key v es store w)

module _ (k : Keepers) where
  -- One entry under a prefix.
  abbrev pub IsSingle : Prefix → Type 0
  IsSingle p = (key : Address) × (v : List ℕ) × (p ≡ (key, v) ∷ [])

  pub record IsTakenOver (s : Stores) : Type 0 where
    pub power : IsSingle s.power
    pub last : IsSingle s.last
    pub validators : IsSingle s.validators
    pub queue : s.queue ≡ []

  cleared :
      (s : Stores)
      → ((clear_validators k s).power ≡ [])
        × ((clear_validators k s).last ≡ [])
        × ((clear_validators k s).validators ≡ [])
        × ((clear_validators k s).queue ≡ [])
  unfolding clear_validators
  cleared s = (
    delete_all_empties s.power s.power (Within-self s.power),
    delete_all_empties s.last s.last (Within-self s.last),
    delete_all_empties s.validators s.validators (Within-self s.validators),
    delete_all_empties s.queue s.queue (Within-self s.queue),
  )

  fund_accounts-Ensures :
      (denom : Text) (accounts : List Text) (c : Ctx k)
      → IsTakenOver c.stores
      → Ensures (λ _ c'. IsTakenOver c'.stores) (fund_accounts k denom accounts c)
  unfolding fund_accounts
  fund_accounts-Ensures denom [] c t = t
  fund_accounts-Ensures denom (a ∷ accounts) c t =
      let P : Unit {0} → Ctx k → Type 0 = λ _ c'. IsTakenOver c'.stores in
      >>=-Ensures P _ _ _ λ _ p1.
        >>=-Ensures P _ _ _
          λ account p2. >>=-Ensures P _ _ _ λ _ p3. fund_accounts-Ensures denom accounts _ t

  -- The three calls that write the new validator, from stores that are empty.
  taken_over :
      (o : Text) (key : List ℕ) (a : Address) (s : Stores)
      → (s.power ≡ []) × (s.last ≡ []) × (s.validators ≡ []) × (s.queue ≡ [])
      → (k.set_validator o key s).0 ≡ ok tt
      → let s1 = (k.set_validator o key s).1 in
        (k.set_validator_by_power_index o key s1).0 ≡ ok tt
        → let s2 = (k.set_validator_by_power_index o key s1).1 in
          (k.set_last_validator_power a 0 s2).0 ≡ ok tt
          → IsTakenOver (k.set_last_validator_power a 0 s2).1
  taken_over o key a s (no_power, no_last, no_validators, no_queue) p1 p2 p3 =
      let (add1, power1, last1, queue1) = k.set_validator_adds o key s p1 in
      let (add2, validators2, last2, queue2) = k.set_validator_by_power_index_adds o key _ p2 in
      let (add3, validators3, power3, queue3) = k.set_last_validator_power_adds a 0 _ p3 in
      record {
        power = (add2.key, add2.value, power3 ∙ add2.added (power1 ∙ no_power));
        last = (add3.key, add3.value, add3.added (last2 ∙ last1 ∙ no_last));
        validators = (add1.key, add1.value, validators3 ∙ validators2 ∙ add1.added no_validators);
        queue = queue3 ∙ queue2 ∙ queue1 ∙ no_queue;
      }

  exit_on-ok : {A : Type 0} (r : Result A) {a : A} → exit_on r ≡ ok a → r ≡ ok a
  exit_on-ok (ok a) h = h
  exit_on-ok (err e) h = absurd (cc h)

  init_app_for_testnet-Ensures :
      (args : ValArgs) (c : Ctx k)
      → Ensures (λ _ c'. IsTakenOver c'.stores) (init_app_for_testnet k args c)
  unfolding init_app_for_testnet
  init_app_for_testnet-Ensures args c =
      let P : Unit {0} → Ctx k → Type 0 = λ _ c'. IsTakenOver c'.stores in
      >>=-Ensures P _ _ _ λ key p1. >>=-Ensures P _ _ _ λ validator p2. >>=-Ensures P _ _ _ λ _ p3.
        >>=-Ensures P _ _ _ λ _ p4. >>=-Ensures P _ _ _ λ _ p5. >>=-Ensures P _ _ _ λ _ p6.
          >>=-Ensures P _ _ _ λ _ p7. >>=-Ensures P _ _ _ λ _ p8. >>=-Ensures P _ _ _ λ _ p9.
            >>=-Ensures P _ _ _ λ bond_denom p10.
              let s0 : Stores = clear_validators k c.stores in
              let s1 : Stores = (k.set_validator args.new_operator_address key s0).1 in
              let s2 : Stores =
                (k.set_validator_by_power_index args.new_operator_address key s1).1 in
              fund_accounts-Ensures bond_denom args.accounts_to_fund _ (
                taken_over args.new_operator_address key validator s0 (cleared c.stores)
                  (exit_on-ok _ p4) (exit_on-ok _ p6) (exit_on-ok _ p7))

  -- After a takeover that does not end the program, the validator set, the power index and the last
  -- powers hold one entry each, and the unbonding queue of validators is empty, whoever was there.
  pub init_app_for_testnet_lem :
      (args : ValArgs) (c : Ctx k)
      → (init_app_for_testnet k args c).0 ≡ ok tt
      → IsTakenOver (init_app_for_testnet k args c).1.stores
  init_app_for_testnet_lem args c =
      Ensures-ok (λ _ c'. IsTakenOver c'.stores) _ (init_app_for_testnet-Ensures args c)

  accounts_split :
      (o : AppOptions)
      → Ensures
          (λ args _. args.accounts_to_fund ≡ split_commas (o.to_string o.accounts_to_fund))
          (get_command_args o tt)
  unfolding get_command_args
  accounts_split o =
      let P : ValArgs → Unit {0} → Type 0 =
        λ args _. args.accounts_to_fund ≡ split_commas (o.to_string o.accounts_to_fund) in
      >>=-Ensures P _ _ _ λ _ p1. >>=-Ensures P _ _ _ λ _ p2.
        >>=-Ensures P _ _ _ λ _ p3. >>=-Ensures P _ _ _ λ _ p4. >>=-Ensures P _ _ _ λ _ p5. refl

  fund_empty :
      (denom : Text) (e : Error) (accounts : List Text) (c : Ctx k)
      → accounts ≡ [] ∷ []
      → k.account_codec [] ≡ err e
      → Ensures (λ _ _. ⊥) (fund_accounts k denom accounts c)
  unfolding fund_accounts
  fund_empty denom e [] c is_empty refused = absurd (cc is_empty)
  fund_empty denom e (a ∷ accounts) c is_empty refused =
      let none : a ≡ [] = cc is_empty in
      let P : Unit {0} → Ctx k → Type 0 = λ _ _. ⊥ in
      >>=-Ensures P _ _ _ λ _ p1. >>=-Ensures P _ _ _ λ account p2.
        let read : exit_on (k.account_codec []) ≡ ok account = rw none at p2 in
        absurd (cc (exit_on-ok (k.account_codec []) read, refused))

  -- Where --accounts-to-fund is empty, which is its default, and the codec refuses the empty text,
  -- the takeover ends the program: the split of an empty text is one empty account.
  pub no_accounts_exit :
      (o : AppOptions) (args : ValArgs) (e : Error) (c : Ctx k)
      → (get_command_args o tt).0 ≡ ok args
      → o.to_string o.accounts_to_fund ≡ []
      → k.account_codec [] ≡ err e
      → ¬ (init_app_for_testnet k args c).0 ≡ ok tt
  unfolding init_app_for_testnet split_commas
  no_accounts_exit o args e c parsed no_accounts refused done =
      let P : Unit {0} → Ctx k → Type 0 = λ _ _. ⊥ in
      let one_empty : args.accounts_to_fund ≡ [] ∷ [] =
        Ensures-ok _ _ (accounts_split o) parsed ∙ ap split_commas no_accounts in
      Ensures-ok P (init_app_for_testnet k args c)
        (>>=-Ensures P _ _ _ λ key p1. >>=-Ensures P _ _ _ λ validator p2.
          >>=-Ensures P _ _ _ λ _ p3. >>=-Ensures P _ _ _ λ _ p4. >>=-Ensures P _ _ _ λ _ p5.
            >>=-Ensures P _ _ _ λ _ p6. >>=-Ensures P _ _ _ λ _ p7. >>=-Ensures P _ _ _ λ _ p8.
              >>=-Ensures P _ _ _ λ _ p9.
                >>=-Ensures P _ _ _ λ bond_denom p10.
                  fund_empty bond_denom e args.accounts_to_fund _ one_empty refused)
        done

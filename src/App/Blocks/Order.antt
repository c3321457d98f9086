-- ===== src/App/Blocks/Order.antt =====
-- What the orders of the modules are for: fees are burned before x/mint and x/distribution run, and
-- x/genutil finds the parameters of x/burn in genesis.
use mono_chain.Prelude.{
  ℕ, ◌≡◌, ◌≢◌, refl, sym, ap, ◌∙◌, String, List, [], ◌∷◌, ◌++◌, none, some, Option, false,
  Bool-cases, str_eq, eq_iff, inl, inr,
}
use mono_chain.Prelude.Int.{pos}
use mono_chain.Sdk.Outcome.{
  Result, ok, err, Action, Ensures, >>=-Ensures, Ensures-of, Ensures-ok, >>=_inv, must-ok, or_panic,
}
use mono_chain.Burn.Module as BurnAppModule
use mono_chain.Burn.Module.{AppModule, new_app_module}
use mono_chain.Sdk.Amounts.{MathInt, int, dec}
use mono_chain.Burn.Keeper as BurnModule
use mono_chain.Burn.Keeper.{process_fee_burn}
use mono_chain.Burn.Keeper.Fees.{IsFeeBurned, share, process_fee_burn_lem}
use mono_chain.Burn.Server.{begin_block}
use mono_chain.Burn.Types.{
  Params, written_params, AccountBurnRecord, GenesisState, fee_collector_name, default_bond_denom,
}
use mono_chain.Burn.Genesis.{init_accounts, set_total, init_genesis}
use mono_chain.App.Blocks.{
  Manager, Modules, section, with_section, put_evm, new_evm_genesis_state, begin_blockers,
  genesis_module_order, begin_blocker, init_chainer,
}

-- The modules that begin a block after x/burn.
abbrev pub after_burn : List String
after_burn =
    "mint" ∷ "authz" ∷ "ibc" ∷ "transfer" ∷ "erc20" ∷ "feemarket" ∷ "evm" ∷ "distribution"
    ∷ "protocolpool" ∷ "slashing" ∷ "evidence" ∷ "staking" ∷ "auth" ∷ "bank" ∷ "gov" ∷ "genutil"
    ∷ "feegrant" ∷ "consensus" ∷ "vesting" ∷ []

abbrev before_burn : List String
before_burn =
    "auth" ∷ "bank" ∷ "distribution" ∷ "staking" ∷ "slashing" ∷ "gov" ∷ "mint" ∷ "ibc" ∷ "evm"
    ∷ "feemarket" ∷ "erc20" ∷ "transfer" ∷ "epochs" ∷ []

-- The modules from x/genutil on.
abbrev pub from_genutil : List String
from_genutil =
    "genutil" ∷ "evidence" ∷ "authz" ∷ "feegrant" ∷ "upgrade" ∷ "vesting" ∷ "consensus" ∷ []

-- A round of calls that returns no error comes past every module of its order.
run_past :
    {S : Type 0} (m : Manager S) (h : String → Action S (Unit {0})) (xs ys : List String) (s : S)
    → (m.run h (xs ++ ys) s).0 ≡ ok tt
    → (s' : S) × (m.run h (xs ++ ys) s ≡ m.run h ys s')
run_past m h [] ys s done = (s, refl)
run_past m h (x ∷ xs) ys s done =
    let (_, first) = m.run_first h x (xs ++ ys) s done in
    let (s', rest) = run_past m h xs ys (h x s).1 (rw first at done) in (s', first ∙ rest)

section-with_section :
    {Raw : Type 0} (n m : String) (raw : Raw) (g : List (String × Raw))
    → str_eq n m ≡ false
    → section n (with_section m raw g) ≡ section n g
unfolding section with_section
section-with_section n m raw [] ne = rw ne
section-with_section n m raw ((x, r) ∷ g) ne = elim (Bool-cases (str_eq m x)) [
  | inl same ↦ let e = (eq_iff m x).0 same in rw (same, ← e, ne)
  | inr other ↦ elim (Bool-cases (str_eq n x)) [
    | inl here ↦ rw (other, here)
    | inr later ↦ rw (other, later) (section-with_section n m raw g ne)
  ]
]

module _ (kb : BurnModule.Keeper) (a : Modules kb) where
  -- At the start of a block only x/epochs runs before x/burn. Where the rate that is stored then is
  -- `p` units, a start that returns no error burns that share of the fees, and goes on from there
  -- with the other modules, x/mint and x/distribution among them.
  pub begin_blocker_burns_first :
      (s : a.State) (rate : Params) (p : ℕ)
      → let s1 = (a.begin "epochs" s).1 in
        let s2 = (a.begin "burn" s1).1 in
        kb.params.get (a.view s1).params ≡ ok rate
        → rate.fee_burn_percent ≡ dec (pos p)
        → (begin_blocker a s).0 ≡ ok tt
        → IsFeeBurned kb rate
            (share p (
              kb.bank.balance
                (kb.bank.module_address fee_collector_name)
                default_bond_denom
                (a.view s1).bank))
            (a.view s1)
            (a.view s2)
          × (begin_blocker a s ≡ a.manager.run a.begin after_burn s2)
  unfolding begin_blocker begin_blockers begin_block
  begin_blocker_burns_first s rate p is_rate is_p done =
      let (_, e1) = a.manager.run_first a.begin "epochs" ("burn" ∷ after_burn) s done in
      let done1 = rw e1 at done in
      let (ok_burn, e2) =
        a.manager.run_first a.begin "burn" after_burn (a.begin "epochs" s).1 done1 in
      let s1 = (a.begin "epochs" s).1 in
      let run = a.begin_burn s1 in
      let burn_done : (process_fee_burn kb (a.view s1)).0 ≡ ok tt =
        sym (ap (λ x. x.0) run) ∙ ok_burn in
      let (burned, _) = process_fee_burn_lem kb (a.view s1) rate p is_rate is_p burn_done in
      (rw (ap (λ x. x.1) run) burned, e1 ∙ e2)

  -- A handler of another module leaves the parameters of x/burn alone.
  abbrev pub LeavesParams : (String → Action a.State (Unit {0})) → Type 0
  LeavesParams h =
      (m : String) (s : a.State) → m ≢ "burn" → (a.view (h m s).1).params ≡ (a.view s).params

  abbrev HasParams : Params → BurnModule.Ctx kb → Type 0
  HasParams p c = kb.params.get c.params ≡ ok p

  set_total-params :
      (total : MathInt) (c : BurnModule.Ctx kb) → (set_total kb total c).1.params ≡ c.params
  set_total-params MathInt.nil c = refl
  set_total-params (int v) c = refl

  init_accounts-Ensures :
      (p : Params) (rs : List AccountBurnRecord) (c : BurnModule.Ctx kb)
      → HasParams p c
      → Ensures (λ _ c'. HasParams p c') (init_accounts kb rs c)
  unfolding init_accounts
  init_accounts-Ensures p [] c h = h
  init_accounts-Ensures p (r ∷ rs) c h =
      let P : Unit {0} → BurnModule.Ctx kb → Type 0 = λ _ c'. HasParams p c' in
      >>=-Ensures P _ _ _ λ addr p1. >>=-Ensures P _ _ _ λ _ p2. init_accounts-Ensures p rs _ h

  init_genesis-Ensures :
      (gs : GenesisState) (c : BurnModule.Ctx kb)
      → Ensures (λ _ c'. HasParams (written_params gs.params) c') (init_genesis kb gs c)
  unfolding init_genesis
  init_genesis-Ensures gs c =
      let P : Unit {0} → BurnModule.Ctx kb → Type 0 =
        λ _ c'. HasParams (written_params gs.params) c' in
      >>=-Ensures P _ _ _ λ _ p1. >>=-Ensures P _ _ _ λ _ p2. >>=-Ensures P _ _ _ λ _ p3.
        init_accounts-Ensures (written_params gs.params) gs.account_totals _
          (rw (set_total-params gs.total) (kb.params.get-set gs.params c.params p1))

  abbrev burn_module : AppModule
  burn_module = new_app_module a.burn_json kb kb.address_codec

  -- The section was read, and its parameters are stored as they are written.
  abbrev pub HasRead : a.burn_json.Raw → BurnModule.Ctx kb → Type 0
  HasRead raw c =
      (gs : GenesisState) × (a.burn_json.unmarshal raw ≡ ok gs)
      × (kb.params.get c.params ≡ ok (written_params gs.params))

  module_genesis-HasRead :
      (raw : a.burn_json.Raw) (c : BurnModule.Ctx kb)
      → Ensures (λ _. HasRead raw) (BurnAppModule.init_genesis burn_module raw c)
  unfolding BurnAppModule.init_genesis
  module_genesis-HasRead raw c =
      >>=-Ensures (λ _. HasRead raw) _ _ _
        λ gs read.
          Ensures-of (λ _. HasRead raw) (or_panic (init_genesis kb gs) c)
            λ _ done. (
              gs,
              must-ok (a.burn_json.unmarshal raw) read,
              Ensures-ok (λ _ c'. HasParams (written_params gs.params) c') _
                  (init_genesis-Ensures gs c) (must-ok (init_genesis kb gs c).0 done),
            )

  round_reaches_genutil :
      (g : List (String × a.burn_json.Raw)) (raw : a.burn_json.Raw) (s : a.State)
      → LeavesParams (a.init g)
      → section "burn" g ≡ some raw
      → (a.manager.run (a.init g) genesis_module_order s).0 ≡ ok tt
      → (s' : a.State) × (a.manager.run (a.init g) genesis_module_order s
          ≡ a.manager.run (a.init g) from_genutil s')
        × HasRead raw (a.view s')
  unfolding genesis_module_order
  round_reaches_genutil g raw s leaves here done =
      let h = a.init g in
      let (s0, e0) =
        run_past a.manager h before_burn ("burn" ∷ "validator" ∷ "protocolpool" ∷ from_genutil) s
          done in
      let done0 = rw e0 at done in
      let (ok_burn, e1) =
        a.manager.run_first h "burn" ("validator" ∷ "protocolpool" ∷ from_genutil) s0 done0 in
      let s1 = (h "burn" s0).1 in
      let done1 = rw e1 at done0 in
      let (_, e2) = a.manager.run_first h "validator" ("protocolpool" ∷ from_genutil) s1 done1 in
      let s2 = (h "validator" s1).1 in
      let done2 = rw e2 at done1 in
      let (_, e3) = a.manager.run_first h "protocolpool" from_genutil s2 done2 in
      let burn_run = a.init_burn g raw s0 here in
      let (gs, read, stored) : HasRead raw (a.view s1) = rw (ap (λ x. x.1) burn_run) (
        Ensures-ok (λ _. HasRead raw) _ (module_genesis-HasRead raw (a.view s0))
          (sym (ap (λ x. x.0) burn_run) ∙ ok_burn)) in
      (
        (h "protocolpool" s2).1,
        e0 ∙ e1 ∙ e2 ∙ e3,
        (
          gs,
          read,
          rw (leaves "protocolpool" s2 (λ e. cc e), leaves "validator" s1 (λ e. cc e)) stored,
        ),
      )

  put_evm-section :
      (g g' : List (String × a.burn_json.Raw)) (r : Result a.burn_json.Raw)
      → put_evm a g r ≡ ok g'
      → section "burn" g' ≡ section "burn" g
  put_evm-section g g' (ok raw) h =
      let e : with_section "evm" raw g ≡ g' = cc h in
      rw (← e) (section-with_section "burn" "evm" raw g refl)
  put_evm-section g g' (err x) h = absurd (cc h)

  new_evm_genesis_state-section :
      (g g' : List (String × a.burn_json.Raw))
      → new_evm_genesis_state a g ≡ ok g'
      → section "burn" g' ≡ section "burn" g
  unfolding new_evm_genesis_state
  new_evm_genesis_state-section g g' = go (section "evm" g)
    where
      go :
          (o : Option a.burn_json.Raw)
          → elim o [ none ↦ ok g | some raw ↦ put_evm a g (a.with_default_preinstalls raw) ] ≡ ok g'
          → section "burn" g' ≡ section "burn" g
      go none h = let e : g ≡ g' = cc h in rw (← e)
      go (some raw) h = put_evm-section g g' (a.with_default_preinstalls raw) h

  -- Where the genesis has a section of x/burn, and no handler of another module changes the
  -- parameters of x/burn, a chain that starts without an error has read the section, and has its
  -- parameters stored when x/genutil runs, with zero for a rate that was not there.
  pub init_chainer_stores_params :
      (bytes : String) (g : List (String × a.burn_json.Raw)) (raw : a.burn_json.Raw) (s : a.State)
      → a.unmarshal bytes ≡ ok g
      → section "burn" g ≡ some raw
      → ((g' : List (String × a.burn_json.Raw)) → LeavesParams (a.init g'))
      → (init_chainer a bytes s).0 ≡ ok tt
      → (g' : List (String × a.burn_json.Raw)) × (s' : a.State) × (init_chainer a bytes s
          ≡ a.manager.run (a.init g') from_genutil s')
        × HasRead raw (a.view s')
  unfolding init_chainer
  init_chainer_stores_params bytes g raw s is_g here leaves done =
      let (g0, e0, q0) = >>=_inv _ _ s done in
      let done0 = rw q0 at done in
      let (g1, e1, q1) = >>=_inv _ _ _ done0 in
      let done1 = rw q1 at done0 in
      let (_, e2, q2) = >>=_inv _ _ _ done1 in
      let done2 = rw q2 at done1 in
      let read : ok g ≡ ok g0 = rw is_g at e0 in
      let same : g ≡ g0 = cc read in
      let there : section "burn" g1 ≡ some raw =
        new_evm_genesis_state-section g0 g1 e1 ∙ rw (← same) here in
      let (s', e3, stored) = round_reaches_genutil g1 raw _ (leaves g1) there done2 in
      (g1, s', q0 ∙ q1 ∙ q2 ∙ e3, stored)

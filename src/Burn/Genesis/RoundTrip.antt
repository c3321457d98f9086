-- ===== src/Burn/Genesis/RoundTrip.antt =====
-- `ExportGenesis` after `InitGenesis` gives back the genesis state.
use mono_chain.Prelude.{
  ◌≡◌, ◌≢◌, refl, sym, ap, ◌∙◌, subst, String, List, [], ◌∷◌, ◌++◌, map, inl, inr, All, arith,
}
use mono_chain.Sdk.Outcome.{not_found, ok, err, ◌>>◌, Ensures, >>=-Ensures, Ensures-map, Ensures-ok}
use mono_chain.Sdk.Amounts.{MathInt, int, written_amount}
use mono_chain.Sdk.Address.{Address}
use mono_chain.Burn.Types.{AccountBurnRecord, GenesisState, written_params, written_record}
use mono_chain.Burn.Keeper.{Keeper, Ctx, on_accounts, get_global_burn_total}
use mono_chain.Burn.Genesis.{init_accounts, set_total, init_genesis, walk, export_genesis}
use mathlib.Core.List.{append-nil, append_assoc, perm_middle, Perm}
use mathlib.Core.List.Perm

module _ (k : Keeper) (name : Address → String) where
  open k use {address_codec, account_burn_total}

  -- an entry as `ExportGenesis` writes it
  pub render : Address × MathInt → AccountBurnRecord
  render e = record { address = name e.0; total = e.1 }

  walk-map :
      ((a : Address) → address_codec.bytes_to_string a ≡ ok (name a))
      → (es : List (Address × MathInt)) (out : List AccountBurnRecord)
      → walk k es out ≡ ok (out ++ map render es)
  unfolding walk render
  walk-map enc [] out = ap ok (sym (append-nil out))
  walk-map enc ((a, v) ∷ es) out =
      rw (enc a, walk)
        (walk-map enc es (out ++ (render (a, v) ∷ []))
          ∙ ap ok (append_assoc out (render (a, v) ∷ []) (map render es)))

  -- The records of a genesis state, with the addresses that they decode to: each address is
  -- written as the codec writes it, and none comes twice.
  abbrev pub Decodes : List Address → List AccountBurnRecord → Type 0
  Decodes [] [] = Unit {0}
  Decodes [] (r ∷ rs) = ⊥
  Decodes (a ∷ ks) [] = ⊥
  Decodes (a ∷ ks) (r ∷ rs) =
      (address_codec.string_to_bytes r.address ≡ ok a)
      × (name a ≡ r.address)
      × All (λ b. b ≢ a) ks
      × Decodes ks rs

  pub pairs : List Address → List AccountBurnRecord → List (Address × MathInt)
  pairs [] rs = []
  pairs (a ∷ ks) [] = []
  pairs (a ∷ ks) (r ∷ rs) = (a, written_amount r.total) ∷ pairs ks rs

  render-pairs :
      (ks : List Address) (rs : List AccountBurnRecord)
      → Decodes ks rs
      → map render (pairs ks rs) ≡ map written_record rs
  unfolding pairs render
  render-pairs [] [] d = refl
  render-pairs [] (r ∷ rs) d = absurd d
  render-pairs (a ∷ ks) [] d = absurd d
  render-pairs (a ∷ ks) (r ∷ rs) (_, named, _, d) = rw (named, render-pairs ks rs d)

  abbrev pub Fresh : List Address → account_burn_total.State → Type 0
  Fresh ks s = All (λ a. account_burn_total.get a s ≡ err not_found) ks

  pub Fresh-set :
      (a : Address) (v : MathInt) (s : account_burn_total.State) (ks : List Address)
      → (account_burn_total.set a v s).0 ≡ ok tt
      → All (λ b. b ≢ a) ks
      → Fresh ks s
      → Fresh ks (account_burn_total.set a v s).1
  Fresh-set a v s [] done ne f = tt
  Fresh-set a v s (b ∷ ks) done (ne, nes) (f, fs) =
      (account_burn_total.get-set_ne b a v s done ne ∙ f, Fresh-set a v s ks done nes fs)

  entries-added :
      (a : Address) (v : MathInt) (s : account_burn_total.State)
      → (account_burn_total.set a v s).0 ≡ ok tt
      → account_burn_total.get a s ≡ err not_found
      → Perm
          (account_burn_total.entries (account_burn_total.set a v s).1)
          ((a, written_amount v) ∷ account_burn_total.entries s)
  entries-added a v s done fresh =
      let w = account_burn_total.entries-set a v s done in
      elim w.was [
        | inl (_, e) ↦ rw (w.written, e) (perm_middle w.before w.after)
        | inr (u, present, _) ↦ cc
      ]

  -- The loop adds one entry for each record.
  init_accounts-Ensures :
      (rs : List AccountBurnRecord) (ks : List Address) (c : Ctx k)
      → Decodes ks rs
      → Fresh ks c.accounts
      → Ensures
          (λ _ c'.
            Perm
              (account_burn_total.entries c'.accounts)
              (pairs ks rs ++ account_burn_total.entries c.accounts)
            × (c'.params ≡ c.params)
            × (c'.count ≡ c.count)
            × (c'.total ≡ c.total))
          (init_accounts k rs c)
  unfolding init_accounts pairs
  init_accounts-Ensures [] [] c d f = (Perm.refl _, refl, refl, refl)
  init_accounts-Ensures [] (a ∷ ks) c d f = absurd d
  init_accounts-Ensures (r ∷ rs) [] c d f = absurd d
  init_accounts-Ensures (r ∷ rs) (a ∷ ks) c (decoded, named, ne, d) (f, fs) =
      let P : Unit {0} → Ctx k → Type 0 = λ _ c'.
        Perm (account_burn_total.entries c'.accounts)
          (pairs (a ∷ ks) (r ∷ rs) ++ account_burn_total.entries c.accounts)
        × (c'.params ≡ c.params)
        × (c'.count ≡ c.count)
        × (c'.total ≡ c.total) in
      >>=-Ensures P _ _ _ λ addr p1.
        let same : a ≡ addr = cc in
        subst
          (λ b.
            Ensures P ((on_accounts (account_burn_total.set b r.total) >> init_accounts k rs) c))
          same
          (>>=-Ensures P _ _ _ λ _ p2.
            let s : account_burn_total.State = (account_burn_total.set a r.total c.accounts).1 in
            Ensures-map P (init_accounts k rs (record c { accounts = s }))
              (λ _ c' (perm, kept_params, kept_count, kept_total). (
                Perm.trans perm (
                    Perm.trans
                      (Perm.append_left (pairs ks rs) (entries-added a r.total c.accounts p2 f))
                      (perm_middle (pairs ks rs) (account_burn_total.entries c.accounts))),
                kept_params,
                kept_count,
                kept_total,
              ))
              (init_accounts-Ensures rs ks (record c { accounts = s }) d
                (Fresh-set a r.total c.accounts ks p2 ne fs)))

  module _ (gs : GenesisState) (ks : List Address) where
    abbrev pub Loaded : Unit {0} → Ctx k → Type 0
    Loaded _ c' =
        (k.params.get c'.params ≡ ok (written_params gs.params))
        × (k.global_burn_count.peek c'.count ≡ ok gs.count)
        × (get_global_burn_total k c' ≡ ok (written_amount gs.total))
        × Perm (account_burn_total.entries c'.accounts) (pairs ks gs.account_totals)

    -- From the point where the total is written on.
    total_on :
        (v : MathInt) (c : Ctx k)
        → gs.total ≡ v
        → k.params.get c.params ≡ ok (written_params gs.params)
        → k.global_burn_count.peek c.count ≡ ok gs.count
        → k.global_burn_total.get c.total ≡ err not_found
        → account_burn_total.entries c.accounts ≡ []
        → Decodes ks gs.account_totals
        → Fresh ks c.accounts
        → Ensures Loaded ((set_total k v >> init_accounts k gs.account_totals) c)
    total_on MathInt.nil c e has_params has_count no_total no_entries d f =
        >>=-Ensures Loaded _ _ _ λ _ _.
          Ensures-map Loaded (init_accounts k gs.account_totals c)
            (λ _ c' (perm, kept_params, kept_count, kept_total). (
              rw kept_params has_params,
              rw kept_count has_count,
              rw (kept_total, no_total, e) refl,
              rw (no_entries, append-nil) at perm,
            ))
            (init_accounts-Ensures gs.account_totals ks c d f)
    total_on (int v) c e has_params has_count no_total no_entries d f =
        >>=-Ensures Loaded _ _ _ λ _ p.
          let s : k.global_burn_total.State = (k.global_burn_total.set (int v) c.total).1 in
          Ensures-map Loaded (init_accounts k gs.account_totals (record c { total = s }))
            (λ _ c' (perm, kept_params, kept_count, kept_total). (
              rw kept_params has_params,
              rw kept_count has_count,
              rw (kept_total, k.global_burn_total.get-set (int v) c.total p, e) refl,
              rw (no_entries, append-nil) at perm,
            ))
            (init_accounts-Ensures gs.account_totals ks (record c { total = s }) d f)

    pub init_genesis-Ensures :
        (c : Ctx k)
        → k.global_burn_total.get c.total ≡ err not_found
        → account_burn_total.entries c.accounts ≡ []
        → Decodes ks gs.account_totals
        → Fresh ks c.accounts
        → Ensures Loaded (init_genesis k gs c)
    unfolding init_genesis
    init_genesis-Ensures c no_total no_entries d f = >>=-Ensures Loaded _ _ _ λ _ p1.
        >>=-Ensures Loaded _ _ _ λ _ p2.
          total_on gs.total
            (record c {
              params = (k.params.set gs.params c.params).1;
              count = (k.global_burn_count.set gs.count c.count).1;
            })
            refl (k.params.get-set gs.params c.params p1)
            (k.global_burn_count.peek-set gs.count c.count p2) no_total no_entries d f

  export-Loaded :
      ((a : Address) → address_codec.bytes_to_string a ≡ ok (name a))
      → (gs : GenesisState) (ks : List Address) (c : Ctx k) → Decodes ks gs.account_totals
      → Loaded gs ks tt c
      → (out : GenesisState) × (export_genesis k c ≡ ok out)
        × (out.params ≡ written_params gs.params)
        × (out.count ≡ gs.count)
        × (out.total ≡ written_amount gs.total)
        × Perm out.account_totals (map written_record gs.account_totals)
  unfolding export_genesis
  export-Loaded enc gs ks c d (has_params, has_count, has_total, perm) = (
    record {
      params = written_params gs.params;
      count = gs.count;
      total = written_amount gs.total;
      account_totals = map render (account_burn_total.entries c.accounts);
    },
    ground (
      arith,
      has_params,
      has_count,
      has_total,
      walk-map enc (account_burn_total.entries c.accounts) [],
    ),
    refl,
    refl,
    refl,
    subst (Perm (map render (account_burn_total.entries c.accounts)))
        (render-pairs ks gs.account_totals d) (Perm.map render perm),
  )

  -- Loading a genesis state into an empty store and writing it back gives the same parameters, the
  -- same count, the same total, and the same account records up to their order, with zero for a
  -- rate or an amount that is nil, provided that the records have distinct addresses written as the
  -- codec writes them.
  pub export-init :
      ((a : Address) → address_codec.bytes_to_string a ≡ ok (name a))
      → (gs : GenesisState) (ks : List Address) (c : Ctx k)
      → k.global_burn_total.get c.total ≡ err not_found
      → account_burn_total.entries c.accounts ≡ []
      → Decodes ks gs.account_totals
      → Fresh ks c.accounts
      → (init_genesis k gs c).0 ≡ ok tt
      → (out : GenesisState) × (export_genesis k (init_genesis k gs c).1 ≡ ok out)
        × (out.params ≡ written_params gs.params)
        × (out.count ≡ gs.count)
        × (out.total ≡ written_amount gs.total)
        × Perm out.account_totals (map written_record gs.account_totals)
  export-init enc gs ks c no_total no_entries d f done =
      export-Loaded enc gs ks _ d
        (Ensures-ok (Loaded gs ks) _ (init_genesis-Ensures gs ks c no_total no_entries d f) done)

-- ===== src/Burn/Module/Loading.antt =====
-- The genesis of x/burn as JSON: what is accepted can be loaded, and comes back.
use mono_chain.Prelude.{◌≡◌, refl, ap, subst, ◌∙◌, String, List, [], ◌∷◌, map, inl, inr}
use mono_chain.Sdk.Outcome.{
  ok, err, not_found, Result-cases, on_ok_inv, must, must-ok, or_panic, >>=-eq-ok, ◌>>=◌,
}
use mono_chain.Sdk.Amounts.{MathInt, int, Dec18, dec, written_amount, written_dec}
use mono_chain.Sdk.Address.{Address}
use mono_chain.Sdk.Json.{JsonCodec}
use mono_chain.Burn.Types.{
  AccountBurnRecord, GenesisState, Params, written_params, written_record, written_genesis,
  default_genesis_state, validate_params, validate_fee_burn_percent,
}
use mono_chain.Burn.Types
use mono_chain.Burn.Keeper.{Keeper, Ctx}
use mono_chain.Burn.Genesis.{init_accounts, set_total}
use mono_chain.Burn.Genesis
use mono_chain.Burn.Genesis.Valid.{AreRecords, validate_genesis_iff}
use mono_chain.Burn.Genesis.RoundTrip.{Decodes, Fresh, export-init}
use mono_chain.Burn.Module.{
  AppModule, new_app_module, validate_genesis, init_genesis, export_genesis,
}
use mathlib.Core.List.{Perm}
use mathlib.Core.List.Perm

-- The collections take every write.
pub record TakesWrites (k : Keeper) : Type 0 where
  pub params : (v : _) (s : k.params.State) → (k.params.set v s).0 ≡ ok tt
  pub count : (v : _) (s : k.global_burn_count.State) → (k.global_burn_count.set v s).0 ≡ ok tt
  pub total : (v : _) (s : k.global_burn_total.State) → (k.global_burn_total.set v s).0 ≡ ok tt
  pub accounts :
      (a : Address) (v : _) (s : k.account_burn_total.State)
      → (k.account_burn_total.set a v s).0 ≡ ok tt

module _ (k : Keeper) (takes : TakesWrites k) where
  init_accounts-succeeds :
      (rs : List AccountBurnRecord) (c : Ctx k)
      → AreRecords k.address_codec rs
      → (init_accounts k rs c).0 ≡ ok tt
  unfolding init_accounts
  init_accounts-succeeds [] c valid = refl
  init_accounts-succeeds (r ∷ rs) c ((a, decoded), _, valid) =
      >>=-eq-ok _ _ c a decoded (
        >>=-eq-ok _ _ c tt (takes.accounts a r.total c.accounts)
          (init_accounts-succeeds rs _ valid))

  set_total-succeeds : (v : MathInt) (c : Ctx k) → (set_total k v c).0 ≡ ok tt
  set_total-succeeds MathInt.nil c = refl
  set_total-succeeds (int v) c = takes.total (int v) c.total

  init_genesis-succeeds :
      (gs : GenesisState) (c : Ctx k)
      → Types.validate_genesis k.address_codec gs ≡ ok tt
      → (Genesis.init_genesis k gs c).0 ≡ ok tt
  unfolding Genesis.init_genesis
  init_genesis-succeeds gs c valid =
      let (_, _, records) = (validate_genesis_iff k.address_codec gs).0 valid in
      >>=-eq-ok _ _ c tt (takes.params gs.params c.params) (
        >>=-eq-ok _ _ _ tt (takes.count gs.count c.count) (
          >>=-eq-ok _ _ _ tt (set_total-succeeds gs.total _)
            (init_accounts-succeeds gs.account_totals _ records)))

  module _ (cdc : JsonCodec GenesisState written_genesis) where
    abbrev am : AppModule
    am = new_app_module cdc k k.address_codec

    -- Whatever ValidateGenesis accepts, InitGenesis loads without a panic, where the address codec
    -- of the module is that of the keeper and the collections take every write.
    pub validated_loads :
        (bz : cdc.Raw) (c : Ctx k)
        → validate_genesis am bz ≡ ok tt
        → (init_genesis am bz c).0 ≡ ok tt
    unfolding validate_genesis init_genesis
    validated_loads bz c valid = elim (Result-cases (cdc.unmarshal bz)) [
      | inr (e, bad) ↦ absurd (cc (rw (validate_genesis, bad) at valid))
      | inl (gs, good) ↦
          >>=-eq-ok _ _ c gs (rw good)
            (rw (init_genesis-succeeds gs c (rw (validate_genesis, good) at valid)) refl)
    ]

written_once : (v : MathInt) → written_amount (written_amount v) ≡ written_amount v
written_once MathInt.nil = refl
written_once (int v) = refl

written_params_once : (p : Params) → written_params (written_params p) ≡ written_params p
written_params_once p = by_rate p.fee_burn_percent
  where
    by_rate :
        (d : Dec18)
        → written_params (record { fee_burn_percent = written_dec d })
          ≡ record { fee_burn_percent = written_dec d }
    by_rate Dec18.nil = refl
    by_rate (dec v) = refl

written_records_once :
    (rs : List AccountBurnRecord)
    → map written_record (map written_record rs) ≡ map written_record rs
written_records_once [] = refl
written_records_once (r ∷ rs) = rw (written_records_once rs, written_once r.total) refl

module _ (k : Keeper) (cdc : JsonCodec GenesisState written_genesis) where
  abbrev module_of : AppModule
  module_of = new_app_module cdc k k.address_codec

  init_genesis-eq :
      (bz : cdc.Raw) (gs : GenesisState) (c : Ctx k)
      → cdc.unmarshal bz ≡ ok gs
      → init_genesis module_of bz c ≡ or_panic (Genesis.init_genesis k gs) c
  unfolding init_genesis ◌>>=◌
  init_genesis-eq bz gs c read = rw (init_genesis, read) refl

  -- JSON that InitGenesis loads into an empty store without a panic comes back from ExportGenesis,
  -- where that does not panic: what is written reads as the same parameters, the same count, the same
  -- total and the same records up to their order, with zero for a rate or an amount that was not there. The
  -- records have distinct addresses written as the codec writes them.
  pub json_round_trip :
      (name : Address → String)
      → ((a : Address) → k.address_codec.bytes_to_string a ≡ ok (name a))
      → (bz : cdc.Raw) (gs : GenesisState) (ks : List Address) (c : Ctx k)
      → cdc.unmarshal bz ≡ ok gs
      → k.global_burn_total.get c.total ≡ err not_found
      → k.account_burn_total.entries c.accounts ≡ []
      → Decodes k name ks gs.account_totals
      → Fresh k name ks c.accounts
      → (init_genesis module_of bz c).0 ≡ ok tt
      → (bz' : cdc.Raw) → export_genesis module_of (init_genesis module_of bz c).1 ≡ ok bz'
      → (out : GenesisState) × (cdc.unmarshal bz' ≡ ok out)
        × (out.params ≡ written_params gs.params)
        × (out.count ≡ gs.count)
        × (out.total ≡ written_amount gs.total)
        × Perm out.account_totals (map written_record gs.account_totals)
  unfolding export_genesis
  json_round_trip name enc bz gs ks c read no_total no_entries d f done bz' exported =
      let e = init_genesis-eq bz gs c read in
      let (out, written, same_params, same_count, same_total, perm) =
        export-init k name enc gs ks c no_total no_entries d f
          (must-ok (Genesis.init_genesis k gs c).0 (rw e at done)) in
      let (out', again, marshaled) =
        on_ok_inv (must (Genesis.export_genesis k (Genesis.init_genesis k gs c).1)) _
          (rw e at exported) in
      let same : out' ≡ out = cc (must-ok _ again, written) in
      let by_json : cdc.marshal out' ≡ ok bz' = must-ok _ marshaled in
      (
        written_genesis out,
        cdc.unmarshal-marshal out bz' (rw same at by_json),
        ap written_params same_params ∙ written_params_once gs.params,
        same_count,
        ap written_amount same_total ∙ written_once gs.total,
        subst (Perm (map written_record out.account_totals))
            (written_records_once gs.account_totals) (Perm.map written_record perm),
      )

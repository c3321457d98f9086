-- ===== src/Burn/Genesis.antt =====
-- x/burn/keeper/genesis.go: the state is loaded from a genesis state, and written back to one.
pub mod RoundTrip
pub mod Valid
pub mod Start
use mono_chain.Prelude.{ℕ, List, [], ◌∷◌, ◌++◌}
use mono_chain.Sdk.Outcome.{Result, ok, err, Action, pure, lift, ◌>>=◌, ◌>>◌}
use mono_chain.Sdk.Amounts.{MathInt, int}
use mono_chain.Sdk.Address.{Address}
use mono_chain.Burn.Types.{AccountBurnRecord, GenesisState}
use mono_chain.Burn.Keeper.{
  Keeper, Ctx, on_params, on_count, on_total, on_accounts, get_global_burn_total,
}

module _ (k : Keeper) where
  open k use {address_codec}

  -- The loop of `InitGenesis` over the account totals.
  unfoldable pub init_accounts : List AccountBurnRecord → Action (Ctx k) (Unit {0})
  init_accounts [] = pure tt
  init_accounts (r ∷ rs) = do
    addr ← lift (address_codec.string_to_bytes r.address)
    on_accounts (k.account_burn_total.set addr r.total)
    init_accounts rs

  -- `if !genState.Total.IsNil()`
  abbrev pub set_total : MathInt → Action (Ctx k) (Unit {0})
  set_total MathInt.nil = pure tt
  set_total (int v) = on_total (k.global_burn_total.set (int v))

  -- `Keeper.InitGenesis`
  unfoldable pub init_genesis : GenesisState → Action (Ctx k) (Unit {0})
  unfolding init_accounts
  init_genesis gs = do
    on_params (k.params.set gs.params)
    on_count (k.global_burn_count.set gs.count)
    set_total gs.total
    init_accounts gs.account_totals

  -- The callback of `Walk`, over the entries that are left.
  unfoldable pub walk :
      List (Address × MathInt) → List AccountBurnRecord → Result (List AccountBurnRecord)
  walk [] out = ok out
  walk ((addr, amount) ∷ es) out = elim (address_codec.bytes_to_string addr) [
    | err e ↦ err e
    | ok addr_str ↦ walk es (out ++ (record { address = addr_str; total = amount } ∷ []))
  ]

  -- `Keeper.ExportGenesis`
  unfoldable pub export_genesis : Ctx k → Result GenesisState
  unfolding walk
  export_genesis c = elim (k.params.get c.params) [
    | err e ↦ err e
    | ok params ↦ elim (k.global_burn_count.peek c.count) [
      | err e ↦ err e
      | ok count ↦ elim (get_global_burn_total k c) [
        | err e ↦ err e
        | ok total ↦ elim (walk (k.account_burn_total.entries c.accounts) []) [
          | err e ↦ err e
          | ok accounts ↦
              ok (record {
                params = params;
                count = count;
                total = total;
                account_totals = accounts;
              })
        ]
      ]
    ]
  ]

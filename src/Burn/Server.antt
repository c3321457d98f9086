-- ===== src/Burn/Server.antt =====
-- x/burn/keeper: the message server (msg_server.go), the query server (grpc_query.go), and the
-- begin blocker (x/burn/abci.go).
pub mod Gate
pub mod Delivered
use mono_chain.Prelude.{ℕ, not, String, Option, none, some, str_eq}
use mono_chain.Sdk.Outcome.{
  invalid_signer, invalid_argument, Result, ok, err, Action, fail_if, lift, ◌>>=◌, ◌>>◌,
}
use mono_chain.Sdk.Amounts.{Math}
use mono_chain.Burn.Types.{Params, validate_params, MsgBurn, MsgUpdateParams}
use mono_chain.Burn.Keeper.{
  Keeper, Ctx, on_params, get_global_burn_total, get_account_burn_total, burn_from_account,
  process_fee_burn,
}

pub record BurnStats : Type 0 where
  pub total_burns : ℕ
  pub total_burned : String

module _ (k : Keeper) where
  -- `msgServer.Burn`
  unfoldable pub burn : MsgBurn → Action (Ctx k) (Unit {0})
  burn msg = do
    sender ← lift (k.address_codec.string_to_bytes msg.from_address)
    burn_from_account k sender msg.amount

  -- `msgServer.UpdateParams`
  unfoldable pub update_params : MsgUpdateParams → Action (Ctx k) (Unit {0})
  update_params msg = do
    fail_if (not (str_eq k.authority msg.authority)) invalid_signer
    lift (validate_params msg.params)
    on_params (k.params.set msg.params)

  -- `queryServer.Params`
  unfoldable pub params : Ctx k → Result Params
  params c = k.params.get c.params

  -- `queryServer.BurnStats`
  unfoldable pub burn_stats : Ctx k → Result BurnStats
  burn_stats c = elim (k.global_burn_count.peek c.count) [
    | err e ↦ err e
    | ok count ↦ elim (get_global_burn_total k c) [
      | err e ↦ err e
      | ok total ↦ ok (record { total_burns = count; total_burned = k.math.int_string total })
    ]
  ]

  -- `queryServer.AccountBurns`; `none` is a nil request.
  unfoldable pub account_burns : Option String → Ctx k → Result String
  account_burns none c = err invalid_argument
  account_burns (some address) c = elim (k.address_codec.string_to_bytes address) [
    | err e ↦ err e
    | ok a ↦ elim (get_account_burn_total k a c) [
      | err e ↦ err e
      | ok total ↦ ok (k.math.int_string total)
    ]
  ]

  -- `AppModule.BeginBlock`
  unfoldable pub begin_block : Action (Ctx k) (Unit {0})
  begin_block = process_fee_burn k

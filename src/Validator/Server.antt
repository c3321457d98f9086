-- ===== src/Validator/Server.antt =====
-- x/validator/keeper: the message server (msg_server.go) and the query server (grpc_query.go).
use mono_chain.Prelude.{not, str_eq}
use mono_chain.Sdk.Outcome.{invalid_signer, Result, Action, lift, fail_if, ◌>>◌}
use mono_chain.Validator.Types.{Params, validate_params, MsgRegisterValidator, MsgUpdateParams}
use mono_chain.Validator.Keeper
use mono_chain.Validator.Keeper.{Keeper, Ctx, on_params}

module _ (k : Keeper) where
  -- `msgServer.RegisterValidator`
  unfoldable pub register_validator : MsgRegisterValidator → Action (Ctx k) (Unit {0})
  register_validator msg = Keeper.register_validator k msg

  -- `msgServer.UpdateParams`
  unfoldable pub update_params : MsgUpdateParams → Action (Ctx k) (Unit {0})
  update_params msg = do
    fail_if (not (str_eq k.authority msg.authority)) invalid_signer
    lift (validate_params k.math msg.params)
    on_params (k.params.set msg.params)

  -- `queryServer.Params`
  unfoldable pub params : Ctx k → Result Params
  params c = k.params.get c.params

-- ===== src/Validator/Gateway.antt =====
-- x/validator/types/query.pb.gw.go: the route of x/validator on the gateway, and
-- `AppModule.RegisterGRPCGatewayRoutes` of x/validator/module.go.
pub mod Routes
use mono_chain.Prelude.{false, String, List, [], ◌∷◌}
use mono_chain.Sdk.Outcome.{Result, ok, err, must}
use mono_chain.Sdk.Gateway.{Gateway, PathParams, Route, handle, client_handler, server_handler}
use mono_chain.Validator.Types.{Params}

module _ {M : Type 0} (g : Gateway M) where
  open g use {Ctx, HttpRequest, Metadata, Pattern}

  -- `QueryClient`; the metadata is the header and the trailer of the call.
  pub record QueryClient : Type 0 where
    pub params : Ctx → Result Params × Metadata

  -- A connection, or the context of a client: `Invoke` at the type of the response, for a method.
  pub record ClientConn : Type 0 where
    pub invoke_params : Ctx → String → Result Params × Metadata

  -- `NewQueryClient`, and the method of `queryClient`
  abbrev pub new_query_client : ClientConn → QueryClient
  new_query_client cc = record {
    params = λ ctx. cc.invoke_params ctx "/monolythium.validator.v1.Query/Params";
  }

  -- `QueryServer`; the metadata is what the method leaves in the stream.
  pub record QueryServer : Type 0 where
    pub params : Ctx → Result Params × Metadata

  -- `runtime.MustPattern(runtime.NewPattern(…))`
  unfoldable pub pattern_query_params : Result Pattern
  pattern_query_params = must (
      g.new_pattern 1 (2 ∷ 0 ∷ 2 ∷ 1 ∷ 2 ∷ 2 ∷ 2 ∷ 3 ∷ 2 ∷ 4 ∷ [])
        ("monolythium" ∷ "mono-chain" ∷ "validator" ∷ "v1" ∷ "params" ∷ []) "" false)

  -- `message` makes a message of a response of the query service.
  module _ (message : Params → M) where
    abbrev pub as_message : Result Params → Result M
    as_message (err e) = err e
    as_message (ok p) = ok (message p)

    -- `request_Query_Params_0`
    unfoldable pub request_query_params :
        QueryClient → Ctx → HttpRequest → PathParams → Result M × Metadata
    request_query_params client ctx req ps =
        let (msg, md) = client.params ctx in (as_message msg, md)

    -- `local_request_Query_Params_0`
    unfoldable pub local_request_query_params :
        QueryServer → Ctx → HttpRequest → PathParams → (Result M × Metadata) × Metadata
    local_request_query_params server ctx req ps =
        let (msg, stream) = server.params ctx in ((as_message msg, g.no_metadata), stream)

    -- `RegisterQueryHandlerClient`; it never returns an error.
    unfoldable pub register_query_handler_client :
        Pattern → QueryClient → List (Route g) → List (Route g)
    register_query_handler_client made client mux =
        handle g "GET" made (client_handler g (request_query_params client)) mux

    -- `RegisterQueryHandlerServer`; it never returns an error.
    unfoldable pub register_query_handler_server :
        Pattern → QueryServer → List (Route g) → List (Route g)
    register_query_handler_server made server mux =
        handle g "GET" made (server_handler g (local_request_query_params server)) mux

    -- `RegisterQueryHandler`
    unfoldable pub register_query_handler : Pattern → ClientConn → List (Route g) → List (Route g)
    register_query_handler made conn mux =
        register_query_handler_client made (new_query_client conn) mux

    -- `RegisterQueryHandlerFromEndpoint`, over `grpc.Dial` with its options. It gives the connection
    -- too, which a goroutine closes once the context is done; the deferred `Close` is for an error, and
    -- the registration returns none.
    unfoldable pub register_query_handler_from_endpoint :
        (String → Result ClientConn)
        → Pattern
        → String
        → List (Route g)
        → Result (List (Route g) × ClientConn)
    register_query_handler_from_endpoint dial made endpoint mux = elim (dial endpoint) [
      | err e ↦ err e
      | ok conn ↦ ok (register_query_handler made conn mux, conn)
    ]

    -- `AppModule.RegisterGRPCGatewayRoutes`
    unfoldable pub register_grpc_gateway_routes :
        Pattern → ClientConn → List (Route g) → List (Route g)
    register_grpc_gateway_routes made client_ctx mux =
        register_query_handler_client made (new_query_client client_ctx) mux

-- ===== src/Burn/Gateway.antt =====
-- x/burn/types/query.pb.gw.go: the routes of x/burn on the gateway, and
-- `AppModule.RegisterGRPCGatewayRoutes` of x/burn/module.go.
pub mod Routes
use mono_chain.Prelude.{ℕ, false, Option, some, none, String, List, [], ◌∷◌}
use mono_chain.Sdk.Outcome.{Result, ok, err, must, invalid_argument, on_ok}
use mono_chain.Sdk.Gateway.{
  Gateway, PathParams, path_param, Route, handle, client_handler, server_handler,
}
use mono_chain.Burn.Types.{Params}
use mono_chain.Burn.Server.{BurnStats}

-- The responses of the query service.
pub data QueryResponse : Type 0 where
  params_response : Params → QueryResponse
  burn_stats_response : BurnStats → QueryResponse
  account_burns_response : String → QueryResponse

module _ {M : Type 0} (g : Gateway M) where
  open g use {Ctx, HttpRequest, Metadata, Pattern}

  -- `QueryClient`; the metadata is the header and the trailer of the call.
  pub record QueryClient : Type 0 where
    pub params : Ctx → Result Params × Metadata
    pub burn_stats : Ctx → Result BurnStats × Metadata
    pub account_burns : Ctx → String → Result String × Metadata

  -- A connection, or the context of a client: `Invoke` at the type of each response, for a method and a
  -- request.
  pub record ClientConn : Type 0 where
    pub invoke_params : Ctx → String → Result Params × Metadata
    pub invoke_burn_stats : Ctx → String → Result BurnStats × Metadata
    pub invoke_account_burns : Ctx → String → String → Result String × Metadata

  -- `NewQueryClient`, and the methods of `queryClient`
  abbrev pub new_query_client : ClientConn → QueryClient
  new_query_client cc = record {
    params = λ ctx. cc.invoke_params ctx "/monolythium.burn.v1.Query/Params";
    burn_stats = λ ctx. cc.invoke_burn_stats ctx "/monolythium.burn.v1.Query/BurnStats";
    account_burns = λ ctx address.
        cc.invoke_account_burns ctx "/monolythium.burn.v1.Query/AccountBurns" address;
  }

  -- `QueryServer`; the metadata is what the method leaves in the stream.
  pub record QueryServer : Type 0 where
    pub params : Ctx → Result Params × Metadata
    pub burn_stats : Ctx → Result BurnStats × Metadata
    pub account_burns : Ctx → Option String → Result String × Metadata

  -- The patterns that the package makes as it starts.
  pub record Patterns : Type 0 where
    pub params : Pattern
    pub burn_stats : Pattern
    pub account_burns : Pattern

  -- `runtime.MustPattern(runtime.NewPattern(…))`
  abbrev must_pattern : List ℕ → List String → Result Pattern
  must_pattern ops names = must (g.new_pattern 1 ops names "" false)

  unfoldable pub pattern_query_params : Result Pattern
  pattern_query_params =
      must_pattern (2 ∷ 0 ∷ 2 ∷ 1 ∷ 2 ∷ 2 ∷ 2 ∷ 3 ∷ 2 ∷ 4 ∷ [])
        ("monolythium" ∷ "mono-chain" ∷ "burn" ∷ "v1" ∷ "params" ∷ [])

  unfoldable pub pattern_query_burn_stats : Result Pattern
  pattern_query_burn_stats =
      must_pattern (2 ∷ 0 ∷ 2 ∷ 1 ∷ 2 ∷ 2 ∷ 2 ∷ 3 ∷ 2 ∷ 4 ∷ [])
        ("monolythium" ∷ "mono-chain" ∷ "burn" ∷ "v1" ∷ "stats" ∷ [])

  unfoldable pub pattern_query_account_burns : Result Pattern
  pattern_query_account_burns =
      must_pattern (2 ∷ 0 ∷ 2 ∷ 1 ∷ 2 ∷ 2 ∷ 2 ∷ 3 ∷ 2 ∷ 4 ∷ 1 ∷ 0 ∷ 4 ∷ 1 ∷ 5 ∷ 5 ∷ 2 ∷ 6 ∷ [])
        ("monolythium" ∷ "mono-chain" ∷ "burn" ∷ "v1" ∷ "accounts" ∷ "address" ∷ "burns" ∷ [])

  -- The variables of the package that hold patterns.
  unfoldable pub patterns : Result Patterns
  patterns = on_ok pattern_query_params λ p. on_ok pattern_query_burn_stats λ b.
      on_ok pattern_query_account_burns
        λ a. ok (record { params = p; burn_stats = b; account_burns = a })

  module _ (message : QueryResponse → M) where
    -- A response as a message.
    abbrev pub as_message : {A : Type 0} → (A → QueryResponse) → Result A → Result M
    as_message response (err e) = err e
    as_message response (ok a) = ok (message (response a))

    -- `request_Query_Params_0`
    unfoldable pub request_query_params :
        QueryClient → Ctx → HttpRequest → PathParams → Result M × Metadata
    request_query_params client ctx req ps =
        let (msg, md) = client.params ctx in (as_message params_response msg, md)

    -- `request_Query_BurnStats_0`
    unfoldable pub request_query_burn_stats :
        QueryClient → Ctx → HttpRequest → PathParams → Result M × Metadata
    request_query_burn_stats client ctx req ps =
        let (msg, md) = client.burn_stats ctx in (as_message burn_stats_response msg, md)

    -- `request_Query_AccountBurns_0`
    unfoldable pub request_query_account_burns :
        QueryClient → Ctx → HttpRequest → PathParams → Result M × Metadata
    request_query_account_burns client ctx req ps = elim (path_param "address" ps) [
      | none ↦ (err invalid_argument, g.no_metadata)
      | some val ↦ elim (g.string_value val) [
        | err e ↦ (err invalid_argument, g.no_metadata)
        | ok address ↦
            let (msg, md) = client.account_burns ctx address in
            (as_message account_burns_response msg, md)
      ]
    ]

    -- `local_request_Query_Params_0`
    unfoldable pub local_request_query_params :
        QueryServer → Ctx → HttpRequest → PathParams → (Result M × Metadata) × Metadata
    local_request_query_params server ctx req ps =
        let (msg, stream) = server.params ctx in
        ((as_message params_response msg, g.no_metadata), stream)

    -- `local_request_Query_BurnStats_0`
    unfoldable pub local_request_query_burn_stats :
        QueryServer → Ctx → HttpRequest → PathParams → (Result M × Metadata) × Metadata
    local_request_query_burn_stats server ctx req ps =
        let (msg, stream) = server.burn_stats ctx in
        ((as_message burn_stats_response msg, g.no_metadata), stream)

    -- `local_request_Query_AccountBurns_0`
    unfoldable pub local_request_query_account_burns :
        QueryServer → Ctx → HttpRequest → PathParams → (Result M × Metadata) × Metadata
    local_request_query_account_burns server ctx req ps = elim (path_param "address" ps) [
      | none ↦ ((err invalid_argument, g.no_metadata), g.no_metadata)
      | some val ↦ elim (g.string_value val) [
        | err e ↦ ((err invalid_argument, g.no_metadata), g.no_metadata)
        | ok address ↦
            let (msg, stream) = server.account_burns ctx (some address) in
            ((as_message account_burns_response msg, g.no_metadata), stream)
      ]
    ]

    -- `RegisterQueryHandlerClient`; it never returns an error.
    unfoldable pub register_query_handler_client :
        Patterns → QueryClient → List (Route g) → List (Route g)
    register_query_handler_client pats client mux =
        let mux1 =
          handle g "GET" pats.params (client_handler g (request_query_params client)) mux in
        let mux2 =
          handle g "GET" pats.burn_stats (client_handler g (request_query_burn_stats client))
            mux1 in
        handle g "GET" pats.account_burns (client_handler g (request_query_account_burns client))
          mux2

    -- `RegisterQueryHandlerServer`; it never returns an error.
    unfoldable pub register_query_handler_server :
        Patterns → QueryServer → List (Route g) → List (Route g)
    register_query_handler_server pats server mux =
        let mux1 =
          handle g "GET" pats.params (server_handler g (local_request_query_params server)) mux in
        let mux2 =
          handle g "GET" pats.burn_stats (server_handler g (local_request_query_burn_stats server))
            mux1 in
        handle g "GET" pats.account_burns
          (server_handler g (local_request_query_account_burns server)) mux2

    -- `RegisterQueryHandler`
    unfoldable pub register_query_handler : Patterns → ClientConn → List (Route g) → List (Route g)
    register_query_handler pats conn mux =
        register_query_handler_client pats (new_query_client conn) mux

    -- `RegisterQueryHandlerFromEndpoint`, over `grpc.Dial` with its options. It gives the connection
    -- too, which a goroutine closes once the context is done; the deferred `Close` is for an error, and
    -- the registration returns none.
    unfoldable pub register_query_handler_from_endpoint :
        (String → Result ClientConn)
        → Patterns
        → String
        → List (Route g)
        → Result (List (Route g) × ClientConn)
    register_query_handler_from_endpoint dial pats endpoint mux = elim (dial endpoint) [
      | err e ↦ err e
      | ok conn ↦ ok (register_query_handler pats conn mux, conn)
    ]

    -- `AppModule.RegisterGRPCGatewayRoutes`
    unfoldable pub register_grpc_gateway_routes :
        Patterns → ClientConn → List (Route g) → List (Route g)
    register_grpc_gateway_routes pats client_ctx mux =
        register_query_handler_client pats (new_query_client client_ctx) mux

-- ===== src/App/Gateway.antt =====
-- app/app.go: RegisterAPIRoutes; docs/docs.go: the OpenAPI service.
pub mod Served
pub mod Reported
use mono_chain.Prelude.{◌≡◌, Bool, String, List, [], ◌∷◌, ◌++◌}
use mono_chain.Sdk.Outcome.{Result, ok, err, Action, panicked}
use mono_chain.Sdk.Gateway.{Gateway, Route}
use mono_chain.Burn.Gateway as BurnGateway
use mono_chain.Burn.Gateway.{QueryResponse}
use mono_chain.Validator.Gateway as ValidatorGateway
use mono_chain.Validator.Types.{Params}

-- `AppName`
abbrev pub app_name : String
app_name = "mono"

-- The files of docs/, as net/http and html/template serve them.
pub record Site : Type 1 where
  pub Page : Type 0
  pub Request : Type 0
  pub file_server : Request → Page
  -- The template of the console, for a title and the address of the specification.
  pub execute : String → String → Request → Page

-- `apiFile`
abbrev pub api_file : String
api_file = "/static/openapi.json"

module _ (site : Site) where
  open site use {Page, Request}

  -- The pages of a router, the last registered first.
  abbrev pub Pages : Type 0
  Pages = List (String × (Request → Page))

  -- `handler`
  unfoldable pub handler : String → Request → Page
  handler title req = site.execute title api_file req

  -- `RegisterOpenAPIService`
  unfoldable pub register_open_api_service : String → Pages → Pages
  register_open_api_service name router =
      ("/", handler name) ∷ (api_file, site.file_server) ∷ router

module _ {M : Type 0} (g : Gateway M) (site : Site) where
  -- The two routers of an `api.Server`.
  pub record Server : Type 0 where
    pub grpc_gateway_router : List (Route g)
    pub router : Pages site

  -- The modules of the basic manager: those of this repository, and another with its routes.
  pub data BasicModule : Type 0 where
    burn validator : BasicModule
    other : List (Route g) → BasicModule

  -- The modules take their turns at a mux.
  abbrev pub in_turn :
      (BasicModule → List (Route g) → List (Route g))
      → List BasicModule
      → List (Route g)
      → List (Route g)
  in_turn each [] mux = mux
  in_turn each (m ∷ ms) mux = in_turn each ms (each m mux)

  -- What the application and the libraries bring: the routes of the services of the SDK, the page
  -- of Swagger, what a client of each module is made of, and how their responses are messages.
  pub record ApiServices : Type 1 where
    pub ClientCtx : Type 0
    pub auth_tx : ClientCtx → List (Route g)
    pub comet : ClientCtx → List (Route g)
    pub node : ClientCtx → List (Route g)
    pub register_swagger_api : ClientCtx → Bool → Pages site → Result (Unit {0}) × Pages site
    -- `BasicManager.RegisterGRPCGatewayRoutes` lets each module register its routes. The list is the
    -- order in which the map of modules gives them, which Go leaves open.
    pub basic_manager :
        List BasicModule
        → (BasicModule → List (Route g) → List (Route g))
        → List (Route g)
        → List (Route g)
    pub basic_manager_lem :
        (ms : List BasicModule) (each : BasicModule → List (Route g) → List (Route g))
        (mux : List (Route g))
        → basic_manager ms each mux ≡ in_turn each ms mux
    pub burn_message : QueryResponse → M
    pub burn_patterns : BurnGateway.Patterns g
    pub burn_conn : ClientCtx → BurnGateway.ClientConn g
    pub validator_message : Params → M
    pub validator_pattern : g.Pattern
    pub validator_conn : ClientCtx → ValidatorGateway.ClientConn g

  module _ (services : ApiServices) where
    open services use {ClientCtx}

    -- `RegisterGRPCGatewayRoutes` of one module
    unfoldable pub register_module : ClientCtx → BasicModule → List (Route g) → List (Route g)
    register_module cx burn mux =
        BurnGateway.register_grpc_gateway_routes g services.burn_message services.burn_patterns
          (services.burn_conn cx) mux
    register_module cx validator mux =
        ValidatorGateway.register_grpc_gateway_routes g services.validator_message
          services.validator_pattern (services.validator_conn cx) mux
    register_module cx (other routes) mux = routes ++ mux

    -- `App.RegisterAPIRoutes`
    unfoldable pub register_api_routes :
        List BasicModule → ClientCtx → Bool → Action Server (Unit {0})
    register_api_routes ms cx swagger api =
        let with_tx = services.auth_tx cx ++ api.grpc_gateway_router in
        let with_comet = services.comet cx ++ with_tx in
        let with_node = services.node cx ++ with_comet in
        let mux = services.basic_manager ms (register_module cx) with_node in
        let (answer, router) = services.register_swagger_api cx swagger api.router in
        elim answer [
          | err e ↦ (err panicked, record { grpc_gateway_router = mux; router = router })
          | ok _ ↦ (
            ok tt,
            record {
              grpc_gateway_router = mux;
              router = register_open_api_service site app_name router;
            },
          )
        ]

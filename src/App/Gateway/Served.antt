-- ===== src/App/Gateway/Served.antt =====
-- Where RegisterAPIRoutes has registered the routes, a query of x/burn or of x/validator is
-- answered by its module, in whatever order the modules came.
use mathlib.Core.List.{append_assoc}
use mono_chain.Prelude.{◌≡◌, refl, sym, subst, ap, ◌∙◌, Bool, List, [], ◌∷◌, ◌++◌, All, All-append}
use mono_chain.Sdk.Outcome.{Result, ok, err}
use mono_chain.Sdk.Gateway.{Gateway, Route, Misses, Fits, PathParams}
use mono_chain.Burn.Gateway as BurnGateway
use mono_chain.Burn.Gateway.{register_grpc_gateway_routes as register_burn}
use mono_chain.Burn.Gateway.Routes as BurnRoutes
use mono_chain.Burn.Gateway.Routes.{Query}
use mono_chain.Burn.Keeper as BurnKeeper
use mono_chain.Validator.Gateway as ValidatorGateway
use mono_chain.Validator.Gateway.{register_grpc_gateway_routes as register_validator}
use mono_chain.Validator.Gateway.Routes as ValidatorRoutes
use mono_chain.Validator.Keeper as ValidatorKeeper
use mono_chain.App.Gateway.{
  Site, Server, BasicModule, burn, validator, other, ApiServices, in_turn, register_module,
  register_api_routes,
}

module _ {M : Type 0} (g : Gateway M) (site : Site) (services : ApiServices g site) where
  open services use {ClientCtx}

  abbrev pub burn_client : ClientCtx → BurnGateway.QueryClient g
  burn_client cx = BurnGateway.new_query_client g (services.burn_conn cx)

  abbrev validator_client : ClientCtx → ValidatorGateway.QueryClient g
  validator_client cx = ValidatorGateway.new_query_client g (services.validator_conn cx)

  abbrev pub before_modules : ClientCtx → Server g site → List (Route g)
  before_modules cx api =
      services.node cx ++ (services.comet cx ++ (services.auth_tx cx ++ api.grpc_gateway_router))

  -- What is registered on the gateway does not depend on what Swagger answers.
  gateway_lem :
      (ms : List (BasicModule g site)) (cx : ClientCtx) (swagger : Bool) (api : Server g site)
      → (register_api_routes g site services ms cx swagger api).1.grpc_gateway_router
        ≡ in_turn g site (register_module g site services cx) ms (before_modules cx api)
  unfolding register_api_routes
  gateway_lem ms cx swagger api =
      by_answer (services.register_swagger_api cx swagger api.router).0 refl
    where
      by_answer :
          (r : Result (Unit {0}))
          → r ≡ (services.register_swagger_api cx swagger api.router).0
          → (register_api_routes g site services ms cx swagger api).1.grpc_gateway_router
            ≡ in_turn g site (register_module g site services cx) ms (before_modules cx api)
      by_answer (err e) same =
          rw (register_api_routes, ← same) (services.basic_manager_lem ms _ (before_modules cx api))
      by_answer (ok _) same =
          rw (register_api_routes, ← same) (services.basic_manager_lem ms _ (before_modules cx api))

  in_turn-append :
      (each : BasicModule g site → List (Route g) → List (Route g))
      (xs ys : List (BasicModule g site)) (mux : List (Route g))
      → in_turn g site each (xs ++ ys) mux ≡ in_turn g site each ys (in_turn g site each xs mux)
  in_turn-append each [] ys mux = refl
  in_turn-append each (x ∷ xs) ys mux = in_turn-append each xs ys (each x mux)

  -- A list that only routes for other requests were put in front of.
  abbrev Adds : g.HttpRequest → List (Route g) → List (Route g) → Type 0
  Adds req mux mux' = (new : List (Route g)) × (mux' ≡ new ++ mux) × All (Misses g req) new

  module _ (req : g.HttpRequest) (Aside : BasicModule g site → Type 0)
      (each : (cx : ClientCtx) (m : BasicModule g site) (mux : List (Route g))
        → Aside m
        → Adds req mux (register_module g site services cx m mux)) where
    in_turn-Adds :
        (cx : ClientCtx) (ms : List (BasicModule g site)) (mux : List (Route g))
        → All Aside ms
        → Adds req mux (in_turn g site (register_module g site services cx) ms mux)
    in_turn-Adds cx [] mux _ = ([], refl, tt)
    in_turn-Adds cx (m ∷ ms) mux (p, ps) =
        let (new, same, misses) = each cx m mux p in
        let (more, same', misses') =
          in_turn-Adds cx ms (register_module g site services cx m mux) ps in
        (
          more ++ new,
          same' ∙ ap (λ l. more ++ l) same ∙ sym (append_assoc more new mux),
          All-append (Misses g req) more new misses' misses,
        )

    -- The routes that stand behind and in front of those of one module.
    around :
        (cx : ClientCtx) (ms ns : List (BasicModule g site)) (m : BasicModule g site)
        (mux : List (Route g))
        → All Aside ms
        → All Aside ns
        → All (Misses g req) mux
        → (front back : List (Route g)) × (in_turn g site
              (register_module g site services cx)
              (ms ++ m ∷ ns)
              mux
            ≡ front ++ register_module g site services cx m back)
          × All (Misses g req) front
          × All (Misses g req) back
    around cx ms ns m mux p q misses =
        let (old, same, before) = in_turn-Adds cx ms mux p in
        let (new, same', after) =
          in_turn-Adds cx ns
            (register_module g site services cx m
              (in_turn g site (register_module g site services cx) ms mux))
            q in
        (
          new,
          old ++ mux,
          in_turn-append (register_module g site services cx) ms (m ∷ ns) mux
              ∙ same'
              ∙ ap (λ l. new ++ register_module g site services cx m l) same,
          after,
          All-append (Misses g req) old mux before misses,
        )

  -- The module has no route for the request, x/burn aside.
  abbrev pub NotBurn : g.HttpRequest → BasicModule g site → Type 0
  NotBurn req burn = ⊥
  NotBurn req validator = Unit
  NotBurn req (other routes) = All (Misses g req) routes

  -- The module has no route for the request, x/validator aside.
  abbrev pub NotValidator : g.HttpRequest → BasicModule g site → Type 0
  NotValidator req burn = Unit
  NotValidator req validator = ⊥
  NotValidator req (other routes) = All (Misses g req) routes

  -- The path of a query of x/burn is none of x/validator.
  not_validator :
      (q : Query) (ps : PathParams) → Fits ValidatorRoutes.template (BurnRoutes.path q) ps → ⊥
  not_validator BurnRoutes.params ps f = cc f.1.1.0
  not_validator BurnRoutes.burn_stats ps f = cc f.1.1.0
  not_validator (BurnRoutes.account_burns a) ps f = cc f.1.1.0

  not_burn :
      (q : Query) (ps : PathParams) → Fits (BurnRoutes.template q) ValidatorRoutes.path ps → ⊥
  not_burn BurnRoutes.params ps f = cc f.1.1.0
  not_burn BurnRoutes.burn_stats ps f = cc f.1.1.0
  not_burn (BurnRoutes.account_burns a) ps f = cc f.1.1.0

  module _ (burn_made : BurnGateway.patterns g ≡ ok services.burn_patterns)
      (validator_made : ValidatorGateway.pattern_query_params g ≡ ok services.validator_pattern)
      (req : g.HttpRequest) (get : g.method req ≡ "GET") where
    beside_burn :
        (q : Query)
        → g.components req ≡ BurnRoutes.path q
        → (cx : ClientCtx) (m : BasicModule g site) (mux : List (Route g)) → NotBurn req m
        → Adds req mux (register_module g site services cx m mux)
    unfolding register_module register_validator ValidatorGateway.register_query_handler_client
    beside_burn q at cx burn mux p = absurd p
    beside_burn q at cx validator mux p = (
      _ ∷ [],
      refl,
      (
        ValidatorRoutes.params_missed g services.validator_message services.validator_pattern req
            validator_made
            λ ps f. not_validator q ps (subst (λ cs. Fits ValidatorRoutes.template cs ps) at f),
        tt,
      ),
    )
    beside_burn q at cx (other routes) mux p = (routes, refl, p)

    beside_validator :
        g.components req ≡ ValidatorRoutes.path
        → (cx : ClientCtx) (m : BasicModule g site) (mux : List (Route g)) → NotValidator req m
        → Adds req mux (register_module g site services cx m mux)
    unfolding register_module register_burn
    beside_validator at cx burn mux p =
        BurnRoutes.register_query_handler_client_adds g services.burn_message (burn_client cx)
          services.burn_patterns mux req burn_made
          λ q ps f. not_burn q ps (subst (λ cs. Fits (BurnRoutes.template q) cs ps) at f)
    beside_validator at cx validator mux p = absurd p
    beside_validator at cx (other routes) mux p = (routes, refl, p)

    -- After RegisterAPIRoutes, a GET request of the path of a query of x/burn is answered by x/burn,
    -- on the state that its client leads to, whatever the order in which the modules were
    -- registered and whether Swagger could be, as long as no route of the SDK or of another
    -- module is one for the request.
    pub register_api_routes_serves_burn :
        (ms ns : List (BasicModule g site)) (cx : ClientCtx) (swagger : Bool) (api : Server g site)
        (k : BurnKeeper.Keeper) (c : BurnKeeper.Ctx k) (q : Query)
        → g.components req ≡ BurnRoutes.path q
        → BurnRoutes.Relays g services.burn_message (burn_client cx) k c
        → All (NotBurn req) ms
        → All (NotBurn req) ns
        → All (Misses g req) (before_modules cx api)
        → g.serve
            (register_api_routes g site services
              (ms ++ burn ∷ ns)
              cx
              swagger
              api).1.grpc_gateway_router
            req
          ≡ BurnRoutes.response g services.burn_message (burn_client cx) k q c req
    unfolding register_module register_burn
    register_api_routes_serves_burn ms ns cx swagger api k c q at relays p r misses =
        let (front, back, same, f, b) =
          around req (NotBurn req) (beside_burn q at) cx ms ns burn (before_modules cx api) p r
            misses in
        ap (λ l. g.serve l req) (gateway_lem (ms ++ burn ∷ ns) cx swagger api ∙ same)
        ∙ BurnRoutes.register_query_handler_client_serves g services.burn_message (burn_client cx) k
            c services.burn_patterns front back req q burn_made relays f b get at

    -- After RegisterAPIRoutes, a GET request of the path of the query of x/validator is answered by
    -- x/validator, on the state that its client leads to, whatever the order in which the
    -- modules were registered and whether Swagger could be, as long as no route of the SDK or of
    -- another module is one for the request.
    pub register_api_routes_serves_validator :
        (ms ns : List (BasicModule g site)) (cx : ClientCtx) (swagger : Bool) (api : Server g site)
        (k : ValidatorKeeper.Keeper) (c : ValidatorKeeper.Ctx k)
        → g.components req ≡ ValidatorRoutes.path
        → ValidatorRoutes.Relays g services.validator_message (validator_client cx) k c
        → All (NotValidator req) ms
        → All (NotValidator req) ns
        → All (Misses g req) (before_modules cx api)
        → g.serve
            (register_api_routes g site services
              (ms ++ validator ∷ ns)
              cx
              swagger
              api).1.grpc_gateway_router
            req
          ≡ ValidatorRoutes.response g services.validator_message (validator_client cx) k c req
    unfolding register_module register_validator
    register_api_routes_serves_validator ms ns cx swagger api k c at relays p r misses =
        let (front, back, same, f, b) =
          around req (NotValidator req) (beside_validator at) cx ms ns validator
            (before_modules cx api) p r misses in
        ap (λ l. g.serve l req) (gateway_lem (ms ++ validator ∷ ns) cx swagger api ∙ same)
        ∙ ValidatorRoutes.register_query_handler_client_serves g services.validator_message
            (validator_client cx) k c services.validator_pattern front back req validator_made
            relays f b get at

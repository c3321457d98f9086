-- ===== src/Sdk/Gateway.antt =====
-- The runtime of grpc-gateway, as the files query.pb.gw.go of x/burn and x/validator use it: routes
-- of a mux, the patterns of their paths, and the handlers that answer a request by a gRPC method.
-- A pattern stands as the operations that the generated code hands to it; what they mean is
-- said by the template of the path that they are compiled from.
use mono_chain.Prelude.{
  ◌≡◌, refl, subst, ◌↔◌, Bool, false, ℕ, suc, String, Option, some, none, List, [], ◌∷◌, ◌++◌, All,
  str_eq, if◌then◌else◌,
}
use mono_chain.Sdk.Outcome.{Result, ok, err, Error}

-- A segment of the template of a path.
pub data Segment : Type 0 where
  literal variable : String → Segment

-- The operations of a template: 2 tests the next component, 1 takes it, 4 joins what it took, and 5
-- binds it to a name; literals and names are numbered in the pool.
abbrev pub operations : ℕ → List Segment → List ℕ
operations i [] = []
operations i (literal s ∷ t) = 2 ∷ i ∷ operations (suc i) t
operations i (variable v ∷ t) = 1 ∷ 0 ∷ 4 ∷ 1 ∷ 5 ∷ i ∷ operations (suc i) t

abbrev pub pool : List Segment → List String
pool [] = []
pool (literal s ∷ t) = s ∷ pool t
pool (variable v ∷ t) = v ∷ pool t

abbrev pub PathParams : Type 0
PathParams = List (String × String)

-- `pathParams[name]`
unfoldable pub path_param : String → PathParams → Option String
path_param name [] = none
path_param name ((key, val) ∷ ps) = if str_eq name key then some val else path_param name ps

-- The components of a path that a template stands for, and what they bind.
abbrev pub Fits : List Segment → List String → PathParams → Type 0
Fits [] [] ps = ps ≡ []
Fits [] (c ∷ cs) ps = ⊥
Fits (s ∷ t) [] ps = ⊥
Fits (literal s ∷ t) (c ∷ cs) ps = (c ≡ s) × Fits t cs ps
Fits (variable v ∷ t) (c ∷ cs) [] = ⊥
Fits (variable v ∷ t) (c ∷ cs) (p ∷ ps) = (p ≡ (v, c)) × Fits t cs ps

-- The runtime, for messages of the type `M`.
pub record Gateway (M : Type 0) : Type 1 where
  pub Ctx : Type 0
  pub HttpRequest : Type 0
  pub Response : Type 0
  pub Metadata : Type 0
  pub Pattern : Type 0
  pub method : HttpRequest → String
  pub components : HttpRequest → List String
  pub request_context : HttpRequest → Ctx
  -- `grpc.NewContextWithServerTransportStream`
  pub with_stream : Ctx → Ctx
  pub annotate_context : Ctx → HttpRequest → Result Ctx
  pub annotate_incoming_context : Ctx → HttpRequest → Result Ctx
  pub no_metadata : Metadata
  pub join : Metadata → Metadata → Metadata
  pub with_metadata : Ctx → Metadata → Ctx
  pub http_error : Ctx → HttpRequest → Error → Response
  pub forward_response_message : Ctx → HttpRequest → M → Response
  -- `runtime.String`
  pub string_value : String → Result String
  pub string_value_lem : (s : String) → string_value s ≡ ok s
  pub new_pattern : ℕ → List ℕ → List String → String → Bool → Result Pattern
  -- `Pattern.Match`, without a verb
  pub matches : Pattern → List String → Option PathParams
  pub matches_iff :
      (t : List Segment) (p : Pattern)
      → new_pattern 1 (operations 0 t) (pool t) "" false ≡ ok p
      → (cs : List String) (ps : PathParams) → (matches p cs ≡ some ps) ↔ Fits t cs ps
  -- What a mux with these routes writes in answer to a request.
  pub serve :
      List (String × Pattern × (HttpRequest → PathParams → Response)) → HttpRequest → Response
  -- A request that the path of one route alone fits is answered by its handler.
  pub serve_only :
      (front back : List (String × Pattern × (HttpRequest → PathParams → Response))) (p : Pattern)
      (handler : HttpRequest → PathParams → Response) (req : HttpRequest) (ps : PathParams)
      → All (λ r. r.0 ≡ method req → matches r.1 (components req) ≡ none) front
      → All (λ r. r.0 ≡ method req → matches r.1 (components req) ≡ none) back
      → matches p (components req) ≡ some ps
      → serve (front ++ (method req, p, handler) ∷ back) req ≡ handler req ps

module _ {M : Type 0} (g : Gateway M) where
  open g use {Ctx, HttpRequest, Response, Metadata, Pattern}

  abbrev pub Route : Type 0
  Route = String × Pattern × (HttpRequest → PathParams → Response)

  -- The route is for another method, or for another path.
  abbrev pub Misses : HttpRequest → Route → Type 0
  Misses req r = r.0 ≡ g.method req → g.matches r.1 (g.components req) ≡ none

  -- `ServeMux.Handle`
  abbrev pub handle :
      String → Pattern → (HttpRequest → PathParams → Response) → List Route → List Route
  handle method p handler routes = (method, p, handler) ∷ routes

  -- What is written for a method's result.
  unfoldable pub written : Ctx → HttpRequest → Result M → Response
  written ctx req (err e) = g.http_error ctx req e
  written ctx req (ok m) = g.forward_response_message ctx req m

  -- The handler that `RegisterQueryHandlerClient` gives to each route.
  unfoldable pub client_handler :
      (Ctx → HttpRequest → PathParams → Result M × Metadata) → HttpRequest → PathParams → Response
  client_handler request req ps =
      let ctx = g.request_context req in
      elim (g.annotate_context ctx req) [
        | err e ↦ g.http_error ctx req e
        | ok rctx ↦
            let (resp, md) = request rctx req ps in written (g.with_metadata ctx md) req resp
      ]

  -- The handler that `RegisterQueryHandlerServer` gives to each route. A method of the server leaves
  -- metadata in the stream of its context.
  unfoldable pub server_handler :
      (Ctx → HttpRequest → PathParams → (Result M × Metadata) × Metadata)
      → HttpRequest
      → PathParams
      → Response
  server_handler request req ps =
      let ctx = g.with_stream (g.request_context req) in
      elim (g.annotate_incoming_context ctx req) [
        | err e ↦ g.http_error ctx req e
        | ok rctx ↦
            let ((resp, md), stream) = request rctx req ps in
            written (g.with_metadata ctx (g.join md stream)) req resp
      ]

  -- A path that no template of a pattern fits is not its route's.
  pub Misses-template :
      (t : List Segment) (p : Pattern) (req : HttpRequest)
      → g.new_pattern 1 (operations 0 t) (pool t) "" false ≡ ok p
      → ((ps : PathParams) → Fits t (g.components req) ps → ⊥)
      → "GET" ≡ g.method req
      → g.matches p (g.components req) ≡ none
  Misses-template t p req made misfit _ =
      by_answer (g.matches p (g.components req))
        λ ps e. misfit ps ((g.matches_iff t p made _ ps).0 e)
    where
      by_answer : (o : Option PathParams) → ((ps : PathParams) → o ≡ some ps → ⊥) → o ≡ none
      by_answer none _ = refl
      by_answer (some ps) f = absurd (f ps refl)

  -- A request of a path that the template of one GET route alone fits is answered by its handler.
  pub serve-template :
      (front back : List Route) (t : List Segment) (p : Pattern)
      (h : HttpRequest → PathParams → Response) (req : HttpRequest) (ps : PathParams)
      → g.new_pattern 1 (operations 0 t) (pool t) "" false ≡ ok p
      → g.method req ≡ "GET"
      → Fits t (g.components req) ps
      → All (Misses req) front
      → All (Misses req) back
      → g.serve (front ++ ("GET", p, h) ∷ back) req ≡ h req ps
  serve-template front back t p h req ps made get fits f b =
      subst (λ m. g.serve (front ++ (m, p, h) ∷ back) req ≡ h req ps) get
        (g.serve_only front back p h req ps f b ((g.matches_iff t p made _ ps).1 fits))

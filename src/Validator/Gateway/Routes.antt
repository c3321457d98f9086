-- ===== src/Validator/Gateway/Routes.antt =====
-- The route of x/validator answers as its query server does.
use mono_chain.Prelude.{◌≡◌, refl, ◌++◌, sym, subst, ◌∙◌, none, String, List, [], ◌∷◌, All}
use mono_chain.Sdk.Outcome.{Result, ok, err, must-ok}
use mono_chain.Sdk.Gateway.{
  Gateway, Route, Misses, Misses-template, Segment, literal, Fits, client_handler, written,
  serve-template,
}
use mono_chain.Validator.Keeper.{Keeper, Ctx}
use mono_chain.Validator.Server
use mono_chain.Validator.Types.{Params}
use mono_chain.Validator.Gateway.{
  QueryClient, pattern_query_params, register_query_handler_client, request_query_params,
  as_message,
}

-- The path that query.proto gives to the query.
abbrev pub path : List String
path = "monolythium" ∷ "mono-chain" ∷ "validator" ∷ "v1" ∷ "params" ∷ []

abbrev pub template : List Segment
template =
    literal "monolythium"
    ∷ literal "mono-chain"
    ∷ literal "validator"
    ∷ literal "v1"
    ∷ literal "params"
    ∷ []

module _ {M : Type 0} (g : Gateway M) (message : Params → M) where
  open g use {HttpRequest, Metadata, Response}

  -- The connection of a client leads to the query server of a keeper, at one state.
  abbrev pub Relays : QueryClient g → (k : Keeper) → Ctx k → Type 0
  Relays client k c = (ctx : g.Ctx) → (client.params ctx).0 ≡ Server.params k c

  -- What is written where the request's context can be made, and where it cannot.
  abbrev pub response : QueryClient g → (k : Keeper) → Ctx k → HttpRequest → Response
  response client k c req =
      let ctx = g.request_context req in
      elim (g.annotate_context ctx req) [
        | err e ↦ g.http_error ctx req e
        | ok rctx ↦
            written g (g.with_metadata ctx (client.params rctx).1) req
              (as_message g message (Server.params k c))
      ]

  handler_lem :
      (client : QueryClient g) (k : Keeper) (c : Ctx k)
      → Relays client k c
      → (req : HttpRequest)
      → client_handler g (request_query_params g message client) req [] ≡ response client k c req
  unfolding client_handler request_query_params
  handler_lem client k c relays req =
      by_context (g.annotate_context (g.request_context req) req) refl
    where
      by_context :
          (r : Result g.Ctx)
          → r ≡ g.annotate_context (g.request_context req) req
          → client_handler g (request_query_params g message client) req []
            ≡ response client k c req
      by_context (err er) e = rw (client_handler, response, ← e) refl
      by_context (ok rctx) e = rw (client_handler, ← e) (rw (relays rctx) (rw (response, ← e) refl))

  pub params_missed :
      (p : g.Pattern) (req : HttpRequest)
      → pattern_query_params g ≡ ok p
      → ((ps : List (String × String)) → Fits template (g.components req) ps → ⊥)
      → "GET" ≡ g.method req
      → g.matches p (g.components req) ≡ none
  unfolding pattern_query_params
  params_missed p req made = Misses-template g template p req (must-ok _ made)

  -- A GET request of the path of the query is answered by the query of x/validator on the state that
  -- the client leads to, where no other route of the mux is one for the request.
  pub register_query_handler_client_serves :
      (client : QueryClient g) (k : Keeper) (c : Ctx k) (p : g.Pattern) (front mux : List (Route g))
      (req : HttpRequest)
      → pattern_query_params g ≡ ok p
      → Relays client k c
      → All (Misses g req) front
      → All (Misses g req) mux
      → g.method req ≡ "GET"
      → g.components req ≡ path
      → g.serve (front ++ register_query_handler_client g message p client mux) req
        ≡ response client k c req
  unfolding register_query_handler_client pattern_query_params
  register_query_handler_client_serves client k c p front mux req made relays f others get at =
      serve-template g front mux template p _ req [] (must-ok _ made) get
        (subst (λ cs. Fits template cs []) (sym at) (refl, (refl, (refl, (refl, (refl, refl)))))) f
        others
      ∙ handler_lem client k c relays req

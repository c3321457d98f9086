-- ===== src/Burn/Gateway/Routes.antt =====
-- The routes of x/burn answer as its query server does.
use mathlib.Core.List.{append_assoc}
use mono_chain.Prelude.{
  ◌≡◌, refl, ◌++◌, sym, subst, ◌≢◌, ◌∙◌, false, some, none, String, List, [], ◌∷◌, All, All-append,
}
use mono_chain.Sdk.Outcome.{Result, ok, err, must-ok, on_ok_inv}
use mono_chain.Sdk.Gateway.{
  Gateway, PathParams, path_param, Route, Misses, Misses-template, Segment, literal, variable, Fits,
  operations, pool, client_handler, written, serve-template,
}
use mono_chain.Burn.Keeper.{Keeper, Ctx}
use mono_chain.Burn.Server
use mono_chain.Burn.Gateway.{
  QueryResponse, params_response, burn_stats_response, account_burns_response, QueryClient,
  Patterns, patterns, pattern_query_params, pattern_query_burn_stats, pattern_query_account_burns,
  register_query_handler_client, request_query_params, request_query_burn_stats,
  request_query_account_burns, as_message,
}

-- The queries of query.proto, and the paths that it gives them.
pub data Query : Type 0 where
  params burn_stats : Query
  account_burns : String → Query

abbrev pub path : Query → List String
path params = "monolythium" ∷ "mono-chain" ∷ "burn" ∷ "v1" ∷ "params" ∷ []
path burn_stats = "monolythium" ∷ "mono-chain" ∷ "burn" ∷ "v1" ∷ "stats" ∷ []
path (account_burns address) =
    "monolythium" ∷ "mono-chain" ∷ "burn" ∷ "v1" ∷ "accounts" ∷ address ∷ "burns" ∷ []

abbrev burn_template : List Segment → List Segment
burn_template t = literal "monolythium" ∷ literal "mono-chain" ∷ literal "burn" ∷ literal "v1" ∷ t

abbrev pub template : Query → List Segment
template params = burn_template (literal "params" ∷ [])
template burn_stats = burn_template (literal "stats" ∷ [])
template (account_burns _) =
    burn_template (literal "accounts" ∷ variable "address" ∷ literal "burns" ∷ [])

abbrev bound : Query → PathParams
bound (account_burns address) = ("address", address) ∷ []
bound _ = []

path-Fits : (q : Query) → Fits (template q) (path q) (bound q)
path-Fits params = (refl, (refl, (refl, (refl, (refl, refl)))))
path-Fits burn_stats = (refl, (refl, (refl, (refl, (refl, refl)))))
path-Fits (account_burns a) = (refl, (refl, (refl, (refl, (refl, (refl, (refl, refl)))))))

module _ {M : Type 0} (g : Gateway M) (message : QueryResponse → M) where
  open g use {HttpRequest, Metadata, Response}

  -- What the query server of a keeper answers.
  abbrev pub answer : (k : Keeper) → Query → Ctx k → Result M
  answer k params c = as_message g message params_response (Server.params k c)
  answer k burn_stats c = as_message g message burn_stats_response (Server.burn_stats k c)
  answer k (account_burns a) c =
      as_message g message account_burns_response (Server.account_burns k (some a) c)

  -- The connection of a client leads to the query server of a keeper, at one state.
  pub record Relays (client : QueryClient g) (k : Keeper) (c : Ctx k) : Type 0 where
    pub params : (ctx : g.Ctx) → (client.params ctx).0 ≡ Server.params k c
    pub burn_stats : (ctx : g.Ctx) → (client.burn_stats ctx).0 ≡ Server.burn_stats k c
    pub account_burns :
        (ctx : g.Ctx) (a : String)
        → (client.account_burns ctx a).0 ≡ Server.account_burns k (some a) c

  -- The metadata of the call of a query.
  abbrev pub metadata : QueryClient g → Query → g.Ctx → Metadata
  metadata client params ctx = (client.params ctx).1
  metadata client burn_stats ctx = (client.burn_stats ctx).1
  metadata client (account_burns a) ctx = (client.account_burns ctx a).1

  -- What is written where the request's context can be made, and where it cannot.
  abbrev pub response : QueryClient g → (k : Keeper) → Query → Ctx k → HttpRequest → Response
  response client k q c req =
      let ctx = g.request_context req in
      elim (g.annotate_context ctx req) [
        | err e ↦ g.http_error ctx req e
        | ok rctx ↦ written g (g.with_metadata ctx (metadata client q rctx)) req (answer k q c)
      ]

  abbrev request : QueryClient g → Query → g.Ctx → HttpRequest → PathParams → Result M × Metadata
  request client params = request_query_params g message client
  request client burn_stats = request_query_burn_stats g message client
  request client (account_burns _) = request_query_account_burns g message client

  -- A request function answers as the query server does.
  request_lem :
      (client : QueryClient g) (k : Keeper) (c : Ctx k) (q : Query)
      → Relays client k c
      → (ctx : g.Ctx) (req : HttpRequest)
      → request client q ctx req (bound q) ≡ (answer k q c, metadata client q ctx)
  unfolding request_query_params request_query_burn_stats request_query_account_burns path_param
  request_lem client k c params relays ctx req = rw (relays.params ctx) refl
  request_lem client k c burn_stats relays ctx req = rw (relays.burn_stats ctx) refl
  request_lem client k c (account_burns a) relays ctx req =
      rw (g.string_value_lem a) (rw (relays.account_burns ctx a) refl)

  handler_lem :
      (client : QueryClient g) (k : Keeper) (c : Ctx k) (q : Query)
      → Relays client k c
      → (req : HttpRequest)
      → client_handler g (request client q) req (bound q) ≡ response client k q c req
  unfolding client_handler
  handler_lem client k c q relays req =
      by_context (g.annotate_context (g.request_context req) req) refl
    where
      by_context :
          (r : Result g.Ctx)
          → r ≡ g.annotate_context (g.request_context req) req
          → client_handler g (request client q) req (bound q) ≡ response client k q c req
      by_context (err er) e = rw (client_handler, response, ← e) refl
      by_context (ok rctx) e =
          rw (client_handler, ← e)
            (rw (request_lem client k c q relays rctx req) (rw (response, ← e) refl))

  record Made (pats : Patterns g) : Type 0 where
    params_made :
        g.new_pattern 1 (operations 0 (template params)) (pool (template params)) "" false
        ≡ ok pats.params
    burn_stats_made :
        g.new_pattern 1 (operations 0 (template burn_stats)) (pool (template burn_stats)) "" false
        ≡ ok pats.burn_stats
    account_burns_made :
        (a : String)
        → g.new_pattern 1
            (operations 0 (template (account_burns a)))
            (pool (template (account_burns a)))
            ""
            false
          ≡ ok pats.account_burns

  patterns-Made : (pats : Patterns g) → patterns g ≡ ok pats → Made pats
  unfolding patterns pattern_query_params pattern_query_burn_stats pattern_query_account_burns
  patterns-Made pats e =
      let (p, made_p, e1) = on_ok_inv (pattern_query_params g) _ e in
      let (b, made_b, e2) = on_ok_inv (pattern_query_burn_stats g) _ e1 in
      let (a, made_a, e3) = on_ok_inv (pattern_query_account_burns g) _ e2 in
      let same : record { params = p; burn_stats = b; account_burns = a } ≡ pats = cc e3 in
      subst Made same (record {
        params_made = must-ok _ made_p;
        burn_stats_made = must-ok _ made_b;
        account_burns_made = λ _. must-ok _ made_a;
      })

  -- No path of one query fits the template of another.
  apart :
      (q r : Query)
      → template q ≢ template r
      → (ps : PathParams) → Fits (template q) (path r) ps
      → ⊥
  apart params params d ps f = absurd (d refl)
  apart params burn_stats d ps f = cc f.1.1.1.1.0
  apart params (account_burns a) d ps f = f.1.1.1.1.1
  apart burn_stats params d ps f = cc f.1.1.1.1.0
  apart burn_stats burn_stats d ps f = absurd (d refl)
  apart burn_stats (account_burns a) d ps f = f.1.1.1.1.1
  apart (account_burns a) params d ps f = cc f.1.1.1.1.0
  apart (account_burns a) burn_stats d ps f = cc f.1.1.1.1.0
  apart (account_burns a) (account_burns b) d ps f = absurd (d refl)

  missed :
      (q r : Query) (p : g.Pattern) (req : HttpRequest)
      → template q ≢ template r
      → g.new_pattern 1 (operations 0 (template q)) (pool (template q)) "" false ≡ ok p
      → g.components req ≡ path r
      → "GET" ≡ g.method req
      → g.matches p (g.components req) ≡ none
  missed q r p req d made e =
      Misses-template g (template q) p req made
        λ ps f. apart q r d ps (subst (λ cs. Fits (template q) cs ps) e f)

  found :
      (front new back : List (Route g)) (q : Query) (p : g.Pattern)
      (h : HttpRequest → PathParams → Response) (req : HttpRequest)
      → g.new_pattern 1 (operations 0 (template q)) (pool (template q)) "" false ≡ ok p
      → g.method req ≡ "GET"
      → g.components req ≡ path q
      → All (Misses g req) front
      → All (Misses g req) new
      → All (Misses g req) back
      → g.serve (front ++ (new ++ ("GET", p, h) ∷ back)) req ≡ h req (bound q)
  found front new back q p h req made get at f n b =
      subst (λ routes. g.serve routes req ≡ h req (bound q)) (append_assoc front new _)
        (serve-template g (front ++ new) back (template q) p h req (bound q) made get
          (subst (λ cs. Fits (template q) cs (bound q)) (sym at) (path-Fits q))
          (All-append (Misses g req) front new f n) b)

  -- A GET request of the path of a query is answered by the query of x/burn on the state that the
  -- client leads to, or by the error of the request's context, where no other route of the mux is one
  -- for the request.
  pub register_query_handler_client_serves :
      (client : QueryClient g) (k : Keeper) (c : Ctx k) (pats : Patterns g)
      (front mux : List (Route g)) (req : HttpRequest) (q : Query)
      → patterns g ≡ ok pats
      → Relays client k c
      → All (Misses g req) front
      → All (Misses g req) mux
      → g.method req ≡ "GET"
      → g.components req ≡ path q
      → g.serve (front ++ register_query_handler_client g message pats client mux) req
        ≡ response client k q c req
  unfolding register_query_handler_client
  register_query_handler_client_serves cx k c pats front mux req params made relays f others get
        at =
      let m = patterns-Made pats made in
      found front (_ ∷ _ ∷ []) mux params pats.params _ req m.params_made get at f
        (
          missed (account_burns "") params pats.account_burns req (λ e. cc e)
              (m.account_burns_made "") at,
          (missed burn_stats params pats.burn_stats req (λ e. cc e) m.burn_stats_made at, tt),
        )
        others
      ∙ handler_lem cx k c params relays req
  register_query_handler_client_serves cx k c pats front mux req burn_stats made relays f others get
        at =
      let m = patterns-Made pats made in
      found front (_ ∷ []) (_ ∷ mux) burn_stats pats.burn_stats _ req m.burn_stats_made get at f
        (
          missed (account_burns "") burn_stats pats.account_burns req (λ e. cc e)
              (m.account_burns_made "") at,
          tt,
        )
        (missed params burn_stats pats.params req (λ e. cc e) m.params_made at, others)
      ∙ handler_lem cx k c burn_stats relays req
  register_query_handler_client_serves cx k c pats front mux req (account_burns a) made relays f
        others get at =
      let m = patterns-Made pats made in
      found front [] (_ ∷ _ ∷ mux) (account_burns a) pats.account_burns _ req
        (m.account_burns_made a) get at f tt
        (
          missed burn_stats (account_burns a) pats.burn_stats req (λ e. cc e) m.burn_stats_made at,
          (missed params (account_burns a) pats.params req (λ e. cc e) m.params_made at, others),
        )
      ∙ handler_lem cx k c (account_burns a) relays req

  -- The routes of x/burn in front of a mux; none is for a request of a path that no template fits.
  pub register_query_handler_client_adds :
      (client : QueryClient g) (pats : Patterns g) (mux : List (Route g)) (req : HttpRequest)
      → patterns g ≡ ok pats
      → ((q : Query) (ps : PathParams) → Fits (template q) (g.components req) ps → ⊥)
      → (new : List (Route g)) × (register_query_handler_client g message pats client mux
          ≡ new ++ mux)
        × All (Misses g req) new
  unfolding register_query_handler_client
  register_query_handler_client_adds client pats mux req made misfit =
      let m = patterns-Made pats made in
      (
        _ ∷ _ ∷ _ ∷ [],
        refl,
        (
          Misses-template g (template (account_burns "")) pats.account_burns req
              (m.account_burns_made "") (misfit (account_burns "")),
          (
            Misses-template g (template burn_stats) pats.burn_stats req m.burn_stats_made
                (misfit burn_stats),
            (Misses-template g (template params) pats.params req m.params_made (misfit params), tt),
          ),
        ),
      )

-- ===== src/App/Gateway/Reported.antt =====
-- What the gateway reports of a chain.
use mono_chain.Prelude.{ℕ, ◌≡◌, refl, ◌∙◌, Bool, List, ◌∷◌, ◌++◌, All}
use mono_chain.Prelude.Int.{ℤ}
use mono_chain.Sdk.Outcome.{ok}
use mono_chain.Sdk.Amounts.{int}
use mono_chain.Sdk.Gateway.{Gateway, Misses, written}
use mono_chain.Burn.Keeper.{Keeper, Ctx}
use mono_chain.Burn.Growth.{IsSound}
use mono_chain.Burn.Chain.{Reach, Reach-IsSound}
use mono_chain.Burn.Totals.{sum_totals}
use mono_chain.Burn.Server as BurnServer
use mono_chain.Burn.Gateway as BurnGateway
use mono_chain.Burn.Gateway.{burn_stats_response}
use mono_chain.Burn.Gateway.Routes as BurnRoutes
use mono_chain.Validator.Gateway as ValidatorGateway
use mono_chain.App.Gateway.{Site, Server, BasicModule, burn, ApiServices, register_api_routes}
use mono_chain.App.Gateway.Served.{
  burn_client, before_modules, NotBurn, register_api_routes_serves_burn,
}

module _ {M : Type 0} (g : Gateway M) (site : Site) (services : ApiServices g site) where
  open services use {ClientCtx, burn_message}

  -- On a sound chain the query of the statistics answers with the sum of the totals of the accounts.
  burn_stats-sum :
      (k : Keeper) (base : ℤ) (c : Ctx k) (n : ℕ)
      → IsSound k base c
      → k.global_burn_count.peek c.count ≡ ok n
      → BurnServer.burn_stats k c
        ≡ ok (record {
          total_burns = n;
          total_burned =
              k.math.int_string (int (sum_totals (k.account_burn_total.entries c.accounts)));
        })
  unfolding BurnServer.burn_stats
  burn_stats-sum k base c n s counts =
      rw (BurnServer.burn_stats, counts) (rw (← s.balanced, s.is_total) refl)

  -- After RegisterAPIRoutes, on a chain from a sound state, a GET request of the path of the
  -- statistics of x/burn is answered by the number of burns and the sum of the totals of the
  -- accounts, as long as the request has a context, the sequence of burns answers, and no route of
  -- the SDK or of another module is one for the request.
  pub register_api_routes_reports :
      (k : Keeper) (base : ℤ) {c : Ctx k} {z : ℤ} {c' : Ctx k} (n : ℕ)
      (ms ns : List (BasicModule g site)) (cx : ClientCtx) (swagger : Bool) (api : Server g site)
      (req : g.HttpRequest) (rctx : g.Ctx)
      → BurnGateway.patterns g ≡ ok services.burn_patterns
      → ValidatorGateway.pattern_query_params g ≡ ok services.validator_pattern
      → IsSound k base c
      → Reach k c z c'
      → k.global_burn_count.peek c'.count ≡ ok n
      → g.method req ≡ "GET"
      → g.components req ≡ BurnRoutes.path BurnRoutes.burn_stats
      → g.annotate_context (g.request_context req) req ≡ ok rctx
      → BurnRoutes.Relays g burn_message (burn_client g site services cx) k c'
      → All (NotBurn g site services req) ms
      → All (NotBurn g site services req) ns
      → All (Misses g req) (before_modules g site services cx api)
      → (md : g.Metadata) × (g.serve
            (register_api_routes g site services
              (ms ++ burn ∷ ns)
              cx
              swagger
              api).1.grpc_gateway_router
            req
          ≡ g.forward_response_message (g.with_metadata (g.request_context req) md) req (
              burn_message (
                burn_stats_response (record {
                  total_burns = n;
                  total_burned =
                      k.math.int_string
                        (int (sum_totals (k.account_burn_total.entries c'.accounts)));
                }))))
  unfolding written
  register_api_routes_reports k base {c' = c'} n ms ns cx swagger api req rctx burn_made
        validator_made s reached counts get at context relays p q misses =
      (
        BurnRoutes.metadata g burn_message (burn_client g site services cx) BurnRoutes.burn_stats
            rctx,
        register_api_routes_serves_burn g site services burn_made validator_made req get ms ns cx
              swagger api k c' BurnRoutes.burn_stats at relays p q misses
            ∙ rw (BurnRoutes.response, context)
                (rw (written, burn_stats-sum k _ c' n (Reach-IsSound k base reached s) counts)
                  refl),
      )

-- ===== src/Tests/Routes.antt =====
-- A gateway and its routes, at concrete inputs.
use mono_chain.Prelude.{◌≡◌, refl, true, String, some, [], ◌∷◌, str_eq, if◌then◌else◌}
use mono_chain.Sdk.Outcome.{Result, ok, err, library, not_found}
use mono_chain.Burn.Gateway as BurnGateway
use mono_chain.Burn.Gateway.{QueryResponse, Patterns, burn_stats_response}
use mono_chain.Burn.Gateway.Routes as BurnRoutes
use mono_chain.Burn.Server as BurnServer
use mono_chain.Validator.Gateway as ValidatorGateway
use mono_chain.Validator.Gateway.Routes as ValidatorRoutes
use mono_chain.Validator.Server as ValidatorServer
use mono_chain.App.Gateway.{
  Site, Server, BasicModule, burn, validator, other, ApiServices, in_turn, register_api_routes,
}
use mono_chain.App.Gateway.Served.{register_api_routes_serves_burn}
use mono_chain.App.Gateway.Reported.{register_api_routes_reports}
use mono_chain.Burn.Chain.{here, next, burned}
use mono_chain.Burn.Totals.{sum_totals}
use mono_chain.Burn.Keeper.{Ctx, burn_from_account, burn_native, update_trackers}
use mono_chain.Prelude.{bytes_eq}
use mono_chain.Prelude.Int.{pos, ◌+ℤ◌}
use mono_chain.Sdk.Outcome.{◌>>=◌}
use mono_chain.Sdk.Amounts.{int, int_limit}
use mono_chain.Tests.Ledger.{send, destroy}
use mono_chain.Tests.Burns.{keeper, state, msg, msg_burned, state-IsSound}
use mono_chain.Tests.Validators.{validator_keeper, start_of, rates}
use mono_chain.Tests.Mux.{
  gateway, burn_message, validator_message, sent, failed, Get, first_match, decode, new_pattern,
}

abbrev site : Site
site = record {
  Page = String;
  Request = Unit {0};
  file_server = λ _. "file";
  execute = λ title url _. title;
}

abbrev burn_patterns : Patterns gateway
burn_patterns = record {
  params = BurnRoutes.template BurnRoutes.params;
  burn_stats = BurnRoutes.template BurnRoutes.burn_stats;
  account_burns = BurnRoutes.template (BurnRoutes.account_burns "");
}

burn_patterns_made : BurnGateway.patterns gateway ≡ ok burn_patterns
unfolding BurnGateway.patterns BurnGateway.pattern_query_params BurnGateway.pattern_query_burn_stats
    BurnGateway.pattern_query_account_burns new_pattern decode
burn_patterns_made = refl

validator_pattern_made : ValidatorGateway.pattern_query_params gateway ≡ ok ValidatorRoutes.template
unfolding ValidatorGateway.pattern_query_params new_pattern decode
validator_pattern_made = refl

-- A method that has another name is unknown.
abbrev answers : {A : Type 0} → String → String → Result A → Result A × Unit {0}
answers method called r = (if str_eq method called then r else err (library "unimplemented"), tt)

abbrev conn : Ctx keeper → BurnGateway.ClientConn gateway
conn c = record {
  invoke_params =
      λ _ method. answers "/monolythium.burn.v1.Query/Params" method (BurnServer.params keeper c);
  invoke_burn_stats = λ _ method.
      answers "/monolythium.burn.v1.Query/BurnStats" method (BurnServer.burn_stats keeper c);
  invoke_account_burns = λ _ method a.
      answers "/monolythium.burn.v1.Query/AccountBurns" method
        (BurnServer.account_burns keeper (some a) c);
}

abbrev services_at : Ctx keeper → ApiServices gateway site
services_at c = record {
  ClientCtx = Unit {0};
  auth_tx = λ _. [];
  comet = λ _. [];
  node = λ _. [];
  register_swagger_api =
      λ _ on router. if on then (err (library "swagger"), router) else (ok tt, router);
  basic_manager = λ ms each mux. in_turn gateway site each ms mux;
  basic_manager_lem = λ ms each mux. refl;
  burn_message = burn_message;
  burn_patterns = burn_patterns;
  burn_conn = λ _. conn c;
  validator_message = validator_message;
  validator_pattern = ValidatorRoutes.template;
  validator_conn = λ _. record {
    invoke_params = λ _ method.
        answers "/monolythium.validator.v1.Query/Params" method
          (ValidatorServer.params validator_keeper (start_of (some rates)));
  };
}

abbrev services : ApiServices gateway site
services = services_at state

abbrev no_routes : Server gateway site
no_routes = record { grpc_gateway_router = []; router = [] }

-- A module that another request is for.
abbrev beside : BasicModule gateway site
beside = other (("POST", [], λ _ _. failed not_found) ∷ [])

register_api_routes_serves_burn_example :
    let req : Get = ("GET", BurnRoutes.path (BurnRoutes.account_burns "alice")) in
    first_match
      (register_api_routes gateway site services
        (validator ∷ beside ∷ burn ∷ [])
        tt
        true
        no_routes).1.grpc_gateway_router
      req
    ≡ BurnRoutes.response gateway burn_message
        (BurnGateway.new_query_client gateway (conn state))
        keeper
        (BurnRoutes.account_burns "alice")
        state
        req
register_api_routes_serves_burn_example =
    register_api_routes_serves_burn gateway site services burn_patterns_made validator_pattern_made
      ("GET", BurnRoutes.path (BurnRoutes.account_burns "alice")) refl (validator ∷ beside ∷ []) []
      tt true no_routes keeper state (BurnRoutes.account_burns "alice") refl
      (record { params = λ _. refl; burn_stats = λ _. refl; account_burns = λ _ _. refl })
      (tt, (((λ e. cc e), tt), tt)) tt tt

-- Alice has burned forty.
abbrev later : Ctx keeper
later = (BurnServer.burn keeper msg state).1

register_api_routes_reports_example :
    (md : Unit {0}) × (first_match
        (register_api_routes gateway site
          (services_at later)
          (validator ∷ burn ∷ beside ∷ [])
          tt
          true
          no_routes).1.grpc_gateway_router
        ("GET", BurnRoutes.path BurnRoutes.burn_stats)
      ≡ sent (
          burn_message (
            burn_stats_response (record {
              total_burns = 1;
              total_burned =
                  keeper.math.int_string
                    (int (sum_totals (keeper.account_burn_total.entries later.accounts)));
            }))))
unfolding BurnServer.burn burn_from_account burn_native update_trackers ◌>>=◌ send destroy bytes_eq
    ◌+ℤ◌ int_limit
register_api_routes_reports_example =
    register_api_routes_reports gateway site (services_at later) keeper (pos 1000) 1
      (validator ∷ []) (beside ∷ []) tt true no_routes
      ("GET", BurnRoutes.path BurnRoutes.burn_stats) tt burn_patterns_made validator_pattern_made
      state-IsSound (next (here (pos 0) refl) (burned msg msg_burned)) refl refl refl refl
      (record { params = λ _. refl; burn_stats = λ _. refl; account_burns = λ _ _. refl }) (tt, tt)
      (((λ e. cc e), tt), tt) tt

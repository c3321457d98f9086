-- ===== src/App/Setup.antt =====
-- The end of `New` in app/app.go, from the registration of the services on, with app/ante.go and
-- app/mempool.go. What the code calls of baseapp and of cosmos/evm is an interface.
pub mod Wired
use mono_chain.Prelude.{ℕ, Bool, true, false, not, String, Option, none, some, List, [], ◌∷◌, ◌++◌}
use mono_chain.Prelude.Int.{ℤ, pos, ltb_ℤ}
use mono_chain.Sdk.Outcome.{
  Result, ok, err, must, Action, pure, lift, or_panic, return_unless, ◌>>=◌, ◌>>◌,
}
use mono_chain.Validator.Ante.{is_allowed}

-- What the libraries make, and the checks that they do.
pub record Libraries : Type 1 where
  pub Keepers : Type 0
  pub AnteHandler : Type 0
  pub PostHandler : Type 0
  pub Mempool : Type 0
  pub CheckTx : Type 0
  pub Proposals : Type 0
  pub Methods : Type 0
  -- values of `appOpts` that the mempool reads
  pub PoolConfig : Type 0
  pub MinTip : Type 0
  pub new_post_handler : Result PostHandler
  pub new_check_tx_handler : Mempool → CheckTx
  -- `NewDefaultProposalHandler`, with the Ethereum adapter for the signers
  pub new_proposal_handler : Mempool → Proposals

module _ (lib : Libraries) where
  open lib use {Keepers, AnteHandler, PostHandler, Mempool, CheckTx, Proposals, Methods}

  -- `evmante.HandlerOptions`: the keepers that are handed over, and what the code sets itself.
  pub record HandlerOptions : Type 0 where
    pub keepers : Keepers
    pub max_tx_gas_wanted : ℕ
    pub dynamic_fee_checker : Bool

  -- `evmmempool.EVMMempoolConfig`
  pub record MempoolConfig : Type 0 where
    pub ante_handler : Option AnteHandler
    pub legacy_pool_config : lib.PoolConfig
    pub block_gas_limit : ℕ
    pub min_tip : lib.MinTip

  -- The options of the node, and the outcome of what depends on them and on the build.
  pub record Options : Type 0 where
    pub max_tx_gas_wanted : ℕ
    pub chain_config_set : Bool
    pub cosmos_pool_max_tx : ℤ
    pub legacy_pool_config : lib.PoolConfig
    pub block_gas_limit : ℕ
    pub min_tip : lib.MinTip
    pub validate_options : HandlerOptions → Result (Unit {0})
    pub new_ante_handler : HandlerOptions → AnteHandler
    pub new_evm_mempool : MempoolConfig → ℤ → Mempool
    pub register_services : Result (Unit {0})
    pub new_reflection_service : Result (Unit {0})
    pub merged_registry : Result (Unit {0})
    pub load_latest_version : Result (Unit {0})

  -- The part of `App` and of its baseapp that is set here.
  pub record App : Type 0 where
    pub keepers : Keepers
    pub circuit_breaker : Option (ℕ → String → Result Bool)
    pub methods : Option Methods
    pub ante_handler : Option AnteHandler
    pub post_handler : Option PostHandler
    pub evm_mempool : Option Mempool
    pub base_mempool : Option Mempool
    pub check_tx_handler : Option CheckTx
    pub proposals : Option Proposals
    pub stores_mounted : Bool
    pub loaded : Bool

module _ {lib : Libraries} where
  abbrev set : (App lib → App lib) → Action (App lib) (Unit {0})
  set f app = (ok tt, f app)

  abbrev pub handler_options : Options lib → App lib → HandlerOptions lib
  handler_options o app = record {
    keepers = app.keepers;
    max_tx_gas_wanted = o.max_tx_gas_wanted;
    dynamic_fee_checker = true;
  }

  -- `setAnteHandler`
  unfoldable pub set_ante_handler : Options lib → Action (App lib) (Unit {0})
  set_ante_handler o = do
    λ app. (must (o.validate_options (handler_options o app)), app)
    set (λ app. record app { ante_handler = some (o.new_ante_handler (handler_options o app)) })

  -- `createMempoolConfig`, with the ante handler that `getAnteHandler` finds
  abbrev pub create_mempool_config : Options lib → App lib → MempoolConfig lib
  create_mempool_config o app = record {
    ante_handler = app.ante_handler;
    legacy_pool_config = o.legacy_pool_config;
    block_gas_limit = o.block_gas_limit;
    min_tip = o.min_tip;
  }

  abbrev pub new_mempool : Options lib → App lib → lib.Mempool
  new_mempool o app = o.new_evm_mempool (create_mempool_config o app) o.cosmos_pool_max_tx

  -- The mempool with the handlers that are made of it.
  abbrev pub with_mempool : lib.Mempool → App lib → App lib
  with_mempool mempool app = record app {
    evm_mempool = some mempool;
    base_mempool = some mempool;
    check_tx_handler = some (lib.new_check_tx_handler mempool);
    proposals = some (lib.new_proposal_handler mempool);
  }

  -- `configureEVMMempool`
  unfoldable pub configure_evm_mempool : Options lib → Action (App lib) (Unit {0})
  configure_evm_mempool o = return_unless o.chain_config_set (
      return_unless (not (ltb_ℤ o.cosmos_pool_max_tx (pos 0)))
        (set (λ app. with_mempool (new_mempool o app) app)))

  -- `setPostHandler`
  unfoldable pub set_post_handler : Action (App lib) (Unit {0})
  set_post_handler = do
    post_handler ← lift (must lib.new_post_handler)
    set (λ app. record app { post_handler = some post_handler })

  -- The end of `New`; an error while the last version is loaded ends the program.
  unfoldable pub finish_new :
      Options lib → (own_methods : lib.Methods) (load_latest : Bool) → Action (App lib) (Unit {0})
  unfolding set_ante_handler configure_evm_mempool set_post_handler
  finish_new o own_methods load_latest = do
    lift (must o.register_services)
    set (λ app. record app { circuit_breaker = some is_allowed })
    lift (must o.new_reflection_service)
    set (λ app. record app { stores_mounted = true; methods = some own_methods })
    set_ante_handler o
    or_panic (configure_evm_mempool o)
    set_post_handler
    lift (must o.merged_registry)
    return_unless load_latest
        (do lift (must o.load_latest_version); set (λ app. record app { loaded = true }))

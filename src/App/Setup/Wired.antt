-- ===== src/App/Setup/Wired.antt =====
-- What is wired when `New` returns.
use mono_chain.Prelude.{◌≡◌, refl, ap, ◌∙◌, Bool, true, false, not, ◌&&◌, ◌||◌, some}
use mono_chain.Prelude.Int.{ltb_ℤ, pos}
use mono_chain.Sdk.Outcome.{
  ok, lift, must, must-ok, return_unless, ◌>>◌, Ensures, >>=-Ensures, Ensures-ok,
}
use mono_chain.Validator.Ante.{is_allowed}
use mono_chain.App.Setup.{
  Libraries, Options, App, handler_options, with_mempool, new_mempool, set_ante_handler,
  configure_evm_mempool, set_post_handler, finish_new,
}

module _ {lib : Libraries} (o : Options lib) where
  -- The EVM mempool is wanted.
  abbrev pub wanted : Bool
  wanted = o.chain_config_set && not (ltb_ℤ o.cosmos_pool_max_tx (pos 0))

  -- The ante handler for the keepers of an application, with the dynamic fee checker.
  abbrev pub own_ante_handler : App lib → lib.AnteHandler
  own_ante_handler app = o.new_ante_handler (record {
    keepers = app.keepers;
    max_tx_gas_wanted = o.max_tx_gas_wanted;
    dynamic_fee_checker = true;
  })

  -- One mempool over the ante handler serves the node, checks transactions and makes proposals.
  abbrev pub HasMempool : Bool → (before after : App lib) → Type 0
  HasMempool true before after =
      (mempool : lib.Mempool) × (mempool
        ≡ o.new_evm_mempool
            (record {
              ante_handler = some (own_ante_handler before);
              legacy_pool_config = o.legacy_pool_config;
              block_gas_limit = o.block_gas_limit;
              min_tip = o.min_tip;
            })
            o.cosmos_pool_max_tx)
      × (after.evm_mempool ≡ some mempool)
      × (after.base_mempool ≡ some mempool)
      × (after.check_tx_handler ≡ some (lib.new_check_tx_handler mempool))
      × (after.proposals ≡ some (lib.new_proposal_handler mempool))
  HasMempool false before after =
      (after.evm_mempool ≡ before.evm_mempool)
      × (after.base_mempool ≡ before.base_mempool)
      × (after.check_tx_handler ≡ before.check_tx_handler)
      × (after.proposals ≡ before.proposals)

  pub record IsWired (own_methods : lib.Methods) (load_latest : Bool) (before after : App lib)
      : Type 0 where
    pub breaker : after.circuit_breaker ≡ some is_allowed
    pub methods : after.methods ≡ some own_methods
    pub ante : after.ante_handler ≡ some (own_ante_handler before)
    pub mempool : HasMempool wanted before after
    pub post : (p : lib.PostHandler) × (lib.new_post_handler ≡ ok p) × (after.post_handler ≡ some p)
    pub mounted : after.stores_mounted ≡ true
    pub version : after.loaded ≡ load_latest || before.loaded

  abbrev with_mempool_if : Bool → App lib → App lib
  with_mempool_if true app = with_mempool (new_mempool o app) app
  with_mempool_if false app = app

  configured_if :
      (b c : Bool) (app : App lib)
      → (return_unless b (return_unless c (λ a. (ok tt, with_mempool (new_mempool o a) a))) app).1
        ≡ with_mempool_if (b && c) app
  configured_if true true app = refl
  configured_if true false app = refl
  configured_if false c app = refl

  configure_evm_mempool-eq :
      (app : App lib) → (configure_evm_mempool o app).1 ≡ with_mempool_if wanted app
  unfolding configure_evm_mempool
  configure_evm_mempool-eq app =
      configured_if o.chain_config_set (not (ltb_ℤ o.cosmos_pool_max_tx (pos 0))) app

  -- The app after each of the last steps, from the app before them.
  abbrev with_ante : App lib → App lib
  with_ante app = record app { ante_handler = some (o.new_ante_handler (handler_options o app)) }

  abbrev with_post : lib.PostHandler → App lib → App lib
  with_post p app = record app { post_handler = some p }

  abbrev begun : lib.Methods → App lib → App lib
  begun own_methods app = record app {
    circuit_breaker = some is_allowed;
    methods = some own_methods;
    stores_mounted = true;
  }

  abbrev ended : Bool → App lib → App lib
  ended load_latest app = record app { loaded = load_latest || app.loaded }

  IsWired-ended :
      (own_methods : lib.Methods) (load_latest w : Bool) (app : App lib) (p : lib.PostHandler)
      → wanted ≡ w
      → lib.new_post_handler ≡ ok p
      → IsWired own_methods load_latest app
          (ended load_latest (with_post p (with_mempool_if w (with_ante (begun own_methods app)))))
  IsWired-ended own_methods load_latest true app p e made = record {
    breaker = refl;
    methods = refl;
    ante = refl;
    mempool = rw e (_, refl, refl, refl, refl, refl);
    post = (p, made, refl);
    mounted = refl;
    version = refl;
  }
  IsWired-ended own_methods load_latest false app p e made = record {
    breaker = refl;
    methods = refl;
    ante = refl;
    mempool = rw e (refl, refl, refl, refl);
    post = (p, made, refl);
    mounted = refl;
    version = refl;
  }

  last-Ensures :
      (own_methods : lib.Methods) (load_latest : Bool) (app end : App lib) (p : lib.PostHandler)
      → lib.new_post_handler ≡ ok p
      → end ≡ with_post p (with_mempool_if wanted (with_ante (begun own_methods app)))
      → Ensures
          (λ _. IsWired own_methods load_latest app)
          (return_unless load_latest
            (lift (must o.load_latest_version) >> (λ a. (ok tt, record a { loaded = true })))
            end)
  last-Ensures own_methods true app end p made e =
      >>=-Ensures (λ _. IsWired own_methods true app) _ _ _
        λ _ _. rw e (IsWired-ended own_methods true wanted app p refl made)
  last-Ensures own_methods false app end p made e =
      rw e (IsWired-ended own_methods false wanted app p refl made)

  ante_set :
      (app : App lib)
      → (set_ante_handler o app).0 ≡ ok tt
      → (set_ante_handler o app).1 ≡ with_ante app
  unfolding set_ante_handler
  ante_set app done =
      Ensures-ok (λ _ after. after ≡ with_ante app) _
        (>>=-Ensures (λ _ after. after ≡ with_ante app) _ _ app λ _ _. refl) done

  post_set :
      (app : App lib)
      → (set_post_handler app).0 ≡ ok tt
      → (p : lib.PostHandler) × (lib.new_post_handler ≡ ok p)
        × ((set_post_handler app).1 ≡ with_post p app)
  unfolding set_post_handler
  post_set app =
      Ensures-ok
        (λ _ after.
          (p : lib.PostHandler) × (lib.new_post_handler ≡ ok p) × (after ≡ with_post p app))
        _
        (>>=-Ensures
          (λ _ after.
            (p : lib.PostHandler) × (lib.new_post_handler ≡ ok p) × (after ≡ with_post p app))
          _ _ app λ p e. (p, must-ok lib.new_post_handler e, refl))

  finish_new-Ensures :
      (own_methods : lib.Methods) (load_latest : Bool) (app : App lib)
      → Ensures
          (λ _. IsWired own_methods load_latest app)
          (finish_new o own_methods load_latest app)
  unfolding finish_new
  finish_new-Ensures own_methods load_latest app =
      let P : Unit {0} → App lib → Type 0 = λ _. IsWired own_methods load_latest app in
      >>=-Ensures P _ _ _ λ _ p1. >>=-Ensures P _ _ _ λ _ p2. >>=-Ensures P _ _ _ λ _ p3.
        >>=-Ensures P _ _ _ λ _ p4. >>=-Ensures P _ _ _ λ _ p5. >>=-Ensures P _ _ _ λ _ p6.
          >>=-Ensures P _ _ _ λ _ p7. >>=-Ensures P _ _ _ λ _ p8.
            let app2 : App lib = (set_ante_handler o (begun own_methods app)).1 in
            let app3 : App lib = (configure_evm_mempool o app2).1 in
            let e2 : app2 ≡ with_ante (begun own_methods app) =
              ante_set (begun own_methods app) p5 in
            let e3 : app3 ≡ with_mempool_if wanted app2 = configure_evm_mempool-eq app2 in
            let (p, made, e4) = post_set app3 p7 in
            last-Ensures own_methods load_latest app (set_post_handler app3).1 p made
              (e4 ∙ ap (with_post p) (e3 ∙ ap (with_mempool_if wanted) e2))

  -- Where the end of `New` returns, the router has the circuit breaker of x/validator, the node calls
  -- the methods of the application, transactions pass the ante handler that is made for its keepers with the dynamic fee checker,
  -- the stores are mounted, and the last version is loaded where that was asked for. The mempool is configured if the EVM has a chain configuration and
  -- the pool size is not negative, and then one mempool over that same ante handler and of that size serves the node,
  -- checks transactions and makes proposals; else none of these is touched.
  pub finish_new_lem :
      (own_methods : lib.Methods) (load_latest : Bool) (app : App lib)
      → (finish_new o own_methods load_latest app).0 ≡ ok tt
      → IsWired own_methods load_latest app (finish_new o own_methods load_latest app).1
  finish_new_lem own_methods load_latest app =
      Ensures-ok (λ _. IsWired own_methods load_latest app) _
        (finish_new-Ensures own_methods load_latest app)

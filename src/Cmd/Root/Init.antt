-- ===== src/Cmd/Root/Init.antt =====
-- The two chain ids that `monod init --network-id` writes.
use mono_chain.Prelude.{ℕ, ◌≡◌, ◌≢◌, refl, sym, ap, subst, ◌∙◌, none, some, []}
use mono_chain.Sdk.Outcome.{ok, Ensures, >>=-Ensures, Ensures-ok, Ensures-of}
use mono_chain.Cmd.Text.{Text, codes, trim_space}
use mono_chain.Cmd.ChainId.Grammar.{IsChainId}
use mono_chain.Cmd.NetworkId.{resolve_evm_chain_id}
use mono_chain.Cmd.NetworkId.Resolve.{network_id_agrees}
use mono_chain.Cmd.Root.{
  Client, Command, MonoAppConfig, init_app_config, persistent_pre_run_e, mono_init_run_e, mono_init,
}

ap-IsChainId :
    {s t : Text} {n : ℕ} → s ≡ t → IsChainId (trim_space s) n → IsChainId (trim_space t) n
ap-IsChainId {n = n} same = subst (λ x. IsChainId (trim_space x) n) same

module _ (client : Client) (default_evm_chain_id : ℕ) where
  -- The configuration that is written is that of the chain id that the flags resolve to.
  abbrev Configured : Command client → Command client → Type 0
  Configured before after =
      (n : ℕ) × (resolve_evm_chain_id default_evm_chain_id before.flags ≡ ok n)
      × (client.app_config after.ctx ≡ some (init_app_config client default_evm_chain_id n))
      × (after.flags ≡ before.flags)

  -- A configuration with the number of the EVM chain, a gas price of zero, and else the defaults.
  pub record IsFor (n : ℕ) (cfg : MonoAppConfig) : Type 0 where
    pub evm_number : cfg.evm.evm_chain_id ≡ n
    pub gas_prices : cfg.config.min_gas_prices ≡ codes "0alyth"
    pub server_rest : cfg.config.rest ≡ client.defaults.server.rest
    pub evm_rest : cfg.evm.rest ≡ client.defaults.evm.rest
    pub json_rpc : cfg.json_rpc ≡ client.defaults.json_rpc
    pub tls : cfg.tls ≡ client.defaults.tls

  init_app_config-IsFor : (n : ℕ) → IsFor n (init_app_config client default_evm_chain_id n)
  init_app_config-IsFor n = record {
    evm_number = refl;
    gas_prices = refl;
    server_rest = refl;
    evm_rest = refl;
    json_rpc = refl;
    tls = refl;
  }

  -- The network id is the chain id of genesis.json, and app.toml has its number.
  abbrev pub Agreed : Text → client.Ctx → Type 0
  Agreed t after =
      (n : ℕ) × IsChainId (trim_space t) n
      × ((cfg : MonoAppConfig) × (client.app_config after ≡ some cfg) × IsFor n cfg)
      × (client.genesis_chain_id after ≡ some t)

  pre_run-Configured :
      (cmd : Command client)
      → client.app_config cmd.ctx ≡ none
      → Ensures (λ _. Configured cmd) (persistent_pre_run_e client default_evm_chain_id cmd)
  unfolding persistent_pre_run_e
  pre_run-Configured cmd empty =
      let P : Unit {0} → Command client → Type 0 = λ _. Configured cmd in
      >>=-Ensures P _ _ _ λ _ p1. >>=-Ensures P _ _ _ λ _ p2. >>=-Ensures P _ _ _ λ _ p3.
        >>=-Ensures P _ _ _ λ n p4. Ensures-of P _ λ _ e.
          let none_yet =
            client.set_cmd_client_context_lem _
            ∙ client.read_from_client_config_lem _
            ∙ client.read_persistent_lem _
            ∙ empty in
          (n, p4, client.intercept_configs_lem _ _ e none_yet, refl)

  -- What the command of x/genutil leaves, after the flags are set.
  init_run-Configured :
      (cmd mid : Command client) (t : Text)
      → cmd.flags.network_id ≡ ok t
      → t ≢ []
      → Configured cmd mid
      → Ensures (λ _ after. Agreed t after.ctx) (mono_init_run_e client default_evm_chain_id mid)
  unfolding mono_init_run_e
  init_run-Configured cmd mid t given full (n, resolved, written, same) =
      let P : Unit {0} → Command client → Type 0 = λ _ after. Agreed t after.ctx in
      >>=-Ensures P _ _ _ λ _ done. Ensures-of P _ λ _ ran.
        let mid_given : mid.flags.network_id ≡ ok t = ap (λ fs. fs.network_id) same ∙ given in
        let (_, taken, agrees) =
          network_id_agrees default_evm_chain_id mid.flags t mid_given full done in
        let resolves : resolve_evm_chain_id default_evm_chain_id mid.flags ≡ ok n =
          ap (resolve_evm_chain_id default_evm_chain_id) same ∙ resolved in
        let (kept, named) = client.init_run_e_lem _ _ ran in
        (
          n,
          ap-IsChainId taken (agrees n resolves),
          (init_app_config client default_evm_chain_id n, kept ∙ written, init_app_config-IsFor n),
          named (λ e. full (sym taken ∙ e)) ∙ ap some taken,
        )

  -- `monod init` with a network id, in a home directory without app.toml, that returns no error: the
  -- network id is the chain id of genesis.json, and app.toml has the EIP-155 number in it as the
  -- EVM chain id, a minimum gas price of 0alyth, and else what the libraries have as defaults.
  pub mono_init_agrees :
      (cmd : Command client) (t : Text)
      → cmd.flags.network_id ≡ ok t
      → t ≢ []
      → client.app_config cmd.ctx ≡ none
      → (mono_init client default_evm_chain_id cmd).0 ≡ ok tt
      → Agreed t (mono_init client default_evm_chain_id cmd).1.ctx
  unfolding mono_init
  mono_init_agrees cmd t given full empty =
      let P : Unit {0} → Command client → Type 0 = λ _ after. Agreed t after.ctx in
      Ensures-ok P _ (
        >>=-Ensures P _ _ _ λ _ prepared.
          init_run-Configured cmd _ t given full
            (Ensures-ok (λ _. Configured cmd) _ (pre_run-Configured cmd empty) prepared))

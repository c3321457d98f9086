-- ===== src/App/Wires/Make.antt =====
-- The keepers that `New` in app/app.go makes, in its order. A key is named as the source names it.
use mono_chain.Prelude.{Bool, String, none, some, List, [], ◌∷◌}
use mono_chain.Sdk.Outcome.{panicked, Result, ok, must, Action, fail_if, lift, ◌>>◌}
use mono_chain.Sdk.Address.{Address}
use mono_chain.App.Wires.{
  Field, consensus_params, account, bank, staking, mint, protocol_pool, distr, slashing, fee_grant,
  epochs, burn, validator, authz, upgrade, ibc, gov, evidence, fee_market, evm, erc20, transfer,
  callback, Given, Wires, assign, hold, set_hooks, deref,
}

-- A keeper with a store and an authority; one with a store; and what has neither.
abbrev pub governed : Address → String → (values pointers : List Field) → Given
governed authority store values pointers = record {
  store = some store;
  transient = none;
  authority = some authority;
  values = values;
  pointers = pointers;
}

abbrev pub stored : String → (values pointers : List Field) → Given
stored store values pointers = record {
  store = some store;
  transient = none;
  authority = none;
  values = values;
  pointers = pointers;
}

abbrev pub plain : (values pointers : List Field) → Given
plain values pointers = record {
  store = none;
  transient = none;
  authority = none;
  values = values;
  pointers = pointers;
}

-- The store keys of `NewKVStoreKeys` and of `NewTransientStoreKeys`, which `New` mounts.
unfoldable pub store_keys : List String
store_keys =
    "authtypes" ∷ "banktypes" ∷ "stakingtypes" ∷ "minttypes" ∷ "distrtypes" ∷ "slashingtypes"
    ∷ "govtypes" ∷ "consensusparamtypes" ∷ "upgradetypes" ∷ "feegrant" ∷ "evidencetypes"
    ∷ "authzkeeper" ∷ "epochstypes" ∷ "burnmoduletypes" ∷ "validatormoduletypes" ∷ "ibcexported"
    ∷ "ibctransfertypes" ∷ "evmtypes" ∷ "feemarkettypes" ∷ "erc20types" ∷ "protocolpooltypes" ∷ []

unfoldable pub transient_keys : List String
transient_keys = "evmtypes" ∷ "feemarkettypes" ∷ []

-- What `New` reads of its options, and the answers of the libraries.
pub record Environment : Type 0 where
  pub register_streaming_services : Result (Unit {0})
  pub versiondb_enable : Bool
  pub new_tx_config_with_options : Result (Unit {0})
  -- the authority's address as a text, decoded by the codec of addresses
  pub decode_authority : Result Address

-- An error that is only printed.
abbrev pub printed : Result (Unit {0}) → Action Wires (Unit {0})
printed r w = (ok tt, w)

-- From the state streaming to the transaction configuration
unfoldable pub new_bank : Environment → (auth_addr : Address) → Action Wires (Unit {0})
new_bank env auth_addr = do
  printed env.register_streaming_services
  fail_if env.versiondb_enable panicked
  assign consensus_params (governed auth_addr "consensusparamtypes" [] [])
  hold "param store" (plain (consensus_params ∷ []) [])
  assign account (governed auth_addr "authtypes" [] [])
  assign bank (governed auth_addr "banktypes" (account ∷ []) [])
  hold "coin metadata query" (plain (bank ∷ []) [])
  lift (must env.new_tx_config_with_options)

-- The static precompiles, the one of x/staking with the message server that is shared
unfoldable pub new_precompiles : Action Wires (Unit {0})
new_precompiles = do
  deref staking
  deref ibc
  hold "distribution precompile" (plain (distr ∷ staking ∷ bank ∷ []) [])
  hold "ics20 precompile" (plain (bank ∷ staking ∷ []) (transfer ∷ ibc ∷ erc20 ∷ []))
  hold "bank precompile" (plain (bank ∷ []) (erc20 ∷ []))
  hold "gov precompile" (plain (gov ∷ bank ∷ []) [])
  hold "slashing precompile" (plain (slashing ∷ bank ∷ []) [])
  hold "staking precompile" (plain (staking ∷ bank ∷ []) (staking ∷ []))

-- `NewKeeper` of x/burn and of x/validator panics on an authority that does not decode.
abbrev pub checked : Environment → Action Wires Address
checked env = lift (must env.decode_authority)

module _ (env : Environment) (auth_addr : Address) where
  -- From `app.StakingKeeper` to the hooks that are set on it
  unfoldable pub new_staking : Action Wires (Unit {0})
  new_staking = do
    assign staking (governed auth_addr "stakingtypes" (account ∷ bank ∷ []) [])
    assign mint (governed auth_addr "minttypes" (account ∷ bank ∷ []) (staking ∷ []))
    assign protocol_pool (governed auth_addr "protocolpooltypes" (account ∷ bank ∷ []) [])
    assign distr
        (governed auth_addr "distrtypes" (account ∷ bank ∷ protocol_pool ∷ []) (staking ∷ []))
    assign slashing (governed auth_addr "slashingtypes" [] (staking ∷ []))
    assign fee_grant (stored "feegrant" (account ∷ []) [])
    assign epochs (stored "epochstypes" [] [])
    set_hooks epochs []
    checked env
    assign burn (governed auth_addr "burnmoduletypes" (bank ∷ []) [])
    hold "validatorStakingMsgServer" (plain [] (staking ∷ []))
    checked env
    assign validator (governed auth_addr "validatormoduletypes" (burn ∷ []) (staking ∷ []))
    set_hooks staking (distr ∷ slashing ∷ [])

module _ (auth_addr : Address) where
  -- From `app.AuthzKeeper` to `app.FeeMarketKeeper`
  unfoldable pub new_governance : Action Wires (Unit {0})
  new_governance = do
    assign authz (stored "authzkeeper" (account ∷ []) [])
    assign upgrade (governed auth_addr "upgradetypes" [] [])
    assign ibc (governed auth_addr "ibcexported" [] (upgrade ∷ []))
    assign gov (governed auth_addr "govtypes" (account ∷ bank ∷ distr ∷ []) (staking ∷ []))
    set_hooks gov []
    assign evidence (stored "evidencetypes" (slashing ∷ account ∷ []) (staking ∷ []))
    assign fee_market
        (record (governed auth_addr "feemarkettypes" [] []) { transient = some "feemarkettypes" })

  -- From `app.EVMKeeper` to the stacks of the transfer module
  unfoldable pub new_evm : Action Wires (Unit {0})
  new_evm = do
    assign evm
        (record (governed auth_addr "evmtypes" (account ∷ bank ∷ fee_market ∷ [])
          (staking ∷ consensus_params ∷ erc20 ∷ [])) { transient = some "evmtypes" })
    assign erc20
        (governed auth_addr "erc20types" (account ∷ bank ∷ []) (evm ∷ staking ∷ transfer ∷ []))
    deref ibc
    assign transfer (governed auth_addr "ibctransfertypes" (account ∷ bank ∷ []) (ibc ∷ []))
    assign callback (plain (account ∷ erc20 ∷ []) (evm ∷ []))
    hold "transfer stack" (plain (transfer ∷ erc20 ∷ callback ∷ []) (ibc ∷ []))
    hold "transfer stack v2" (plain (transfer ∷ erc20 ∷ []) [])
    hold "light clients" (plain [] (ibc ∷ []))

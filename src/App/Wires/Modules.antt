-- ===== src/App/Wires/Modules.antt =====
-- The module manager of `New` in app/app.go: what each module is given.
use mono_chain.Prelude.{[], ◌∷◌}
use mono_chain.Sdk.Outcome.{Action, ◌>>◌}
use mono_chain.App.Wires.{
  consensus_params, account, bank, staking, mint, protocol_pool, distr, slashing, fee_grant, epochs,
  burn, validator, authz, upgrade, ibc, gov, evidence, fee_market, evm, erc20, transfer, Wires,
  hold,
}
use mono_chain.App.Wires.Make.{
  Environment, plain, new_bank, new_staking, new_governance, new_precompiles, new_evm,
}
use mono_chain.Sdk.Address.{Address}

-- The modules of `module.NewManager`: the light clients have no keeper of `App`.
unfoldable pub new_manager : Action Wires (Unit {0})
new_manager = do
  hold "genutil" (plain (account ∷ []) (staking ∷ []))
  hold "auth" (plain (account ∷ []) [])
  hold "bank" (plain (bank ∷ account ∷ []) [])
  hold "feegrant" (plain (account ∷ bank ∷ fee_grant ∷ []) [])
  hold "gov" (plain (account ∷ bank ∷ []) (gov ∷ []))
  hold "mint" (plain (mint ∷ account ∷ []) [])
  hold "slashing" (plain (slashing ∷ account ∷ bank ∷ []) (staking ∷ []))
  hold "distribution" (plain (distr ∷ account ∷ bank ∷ []) (staking ∷ []))
  hold "staking" (plain (account ∷ bank ∷ []) (staking ∷ []))
  hold "upgrade" (plain (account ∷ []) (upgrade ∷ []))
  hold "evidence" (plain (evidence ∷ []) [])
  hold "authz" (plain (authz ∷ account ∷ bank ∷ []) [])
  hold "consensus" (plain (consensus_params ∷ []) [])
  hold "vesting" (plain (account ∷ bank ∷ []) [])
  hold "ibc" (plain [] (ibc ∷ []))
  hold "transfer" (plain (transfer ∷ []) [])
  hold "evm" (plain (account ∷ bank ∷ []) (evm ∷ []))
  hold "feemarket" (plain (fee_market ∷ []) [])
  hold "erc20" (plain (erc20 ∷ account ∷ []) [])
  hold "epochs" (plain (epochs ∷ []) [])
  hold "burn" (plain (burn ∷ []) [])
  hold "validator" (plain (validator ∷ []) (staking ∷ []))
  hold "protocolpool" (plain (protocol_pool ∷ account ∷ bank ∷ []) [])

-- The keepers and the modules of `New`.
unfoldable pub new_keepers : Environment → Address → Action Wires (Unit {0})
unfolding new_bank new_staking new_governance new_precompiles new_evm new_manager
new_keepers env auth_addr = do
  new_bank env auth_addr
  new_staking env auth_addr
  new_governance auth_addr
  new_precompiles
  new_evm auth_addr
  new_manager

-- ===== src/Burn/Server/Gate.antt =====
-- Who may change the parameters, and to what: `msgServer.UpdateParams` on every branch.
use mono_chain.Prelude.{◌≡◌, ◌≢◌, sym, ◌⊎◌, inl, inr, Bool-cases, false, str_eq, eq_iff}
use mono_chain.Sdk.Outcome.{Error, invalid_signer, Result-cases, ok, err, ◌>>=◌}
use mono_chain.Burn.Types.{MsgUpdateParams, validate_params}
use mono_chain.Burn.Keeper.{Keeper, Ctx}
use mono_chain.Burn.Server.{update_params}

module _ (k : Keeper) (msg : MsgUpdateParams) (c : Ctx k) where
  refuse : str_eq k.authority msg.authority ≡ false → msg.authority ≢ k.authority
  refuse other same = cc (other, (eq_iff k.authority msg.authority).1 (sym same))

  -- A message from anyone but the authority is refused with ErrInvalidSigner, and one with invalid
  -- parameters with the error of their validation, both before anything is written. A message from
  -- the authority with valid parameters stores them, and touches no other part of the state.
  pub update_params_cases :
      ((msg.authority ≢ k.authority) × (update_params k msg c ≡ (err invalid_signer, c)))
      ⊎ ((msg.authority ≡ k.authority)
          × ((e : Error) × (validate_params msg.params ≡ err e)
              × (update_params k msg c ≡ (err e, c))))
      ⊎ ((msg.authority ≡ k.authority)
          × (validate_params msg.params ≡ ok tt)
          × (update_params k msg c ≡ (
            (k.params.set msg.params c.params).0,
            record c { params = (k.params.set msg.params c.params).1 },
          )))
  unfolding update_params ◌>>=◌
  update_params_cases = elim (Bool-cases (str_eq k.authority msg.authority)) [
    | inr other ↦ inl (refuse other, rw other)
    | inl same ↦
        let is_authority = (eq_iff k.authority msg.authority).0 same in
        elim (Result-cases (validate_params msg.params)) [
          | inr (e, bad) ↦ inr (inl (sym is_authority, (e, bad, rw (same, bad))))
          | inl (u, good) ↦ inr (inr (sym is_authority, good, rw (same, good)))
        ]
  ]

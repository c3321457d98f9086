-- ===== src/Tests/Exports.antt =====
-- The theorems on the export at concrete inputs.
use mono_chain.Prelude.{ℕ, ◌≡◌, refl, false, [], ◌∷◌, str_eq, bytes_eq, if◌then◌else◌}
use mono_chain.Sdk.Outcome.{ok, err, library, ◌>>=◌}
use mono_chain.Sdk.Address.{Codec}
use mono_chain.App.Export.{
  Distribution, Keepers, Ctx, rewrite_all, reset_entries, is_member, check_addresses,
  withdraw_commissions, withdraw_rewards, reinitialize_delegations, reinitialize_validator,
  reinitialize_validators, reset_validators, prep_distribution, prep_unbonding, prep_slashing,
  prep_for_zero_height_genesis,
}
use mono_chain.App.Export.Heights.Zero.{IsZeroed, prep_for_zero_height_genesis_lem}
use mono_chain.Tests.Stores.{pair_map}

abbrev one_name : Codec
one_name = record {
  string_to_bytes = λ s. if str_eq s "val" then ok (7 ∷ []) else err (library "bech32");
  bytes_to_string = λ a. ok "val";
}

-- A pool, and the number of the calls.
abbrev counted : Distribution
counted = record {
  State = ℕ;
  withdraw_validator_commission = λ h a s. s;
  withdraw_delegation_rewards = λ h a b s. s;
  before_delegation_created = λ h a b s. (ok tt, s);
  after_delegation_modified = λ h a b s. (ok tt, s);
  delete_all_validator_slash_events = λ s. s;
  delete_all_validator_historical_rewards = λ s. s;
  Coins = ℕ;
  add_coins = λ a b. a;
  outstanding_rewards = λ a s. ok 1;
  get_community_pool = λ s. ok s;
  set_community_pool = λ n s. (ok tt, n);
  after_validator_created = λ h a s. (ok tt, s);
}

abbrev export_keepers : Keepers
export_keepers = record {
  account_codec = one_name;
  validator_codec = one_name;
  distribution = counted;
  validators = pair_map (λ v. v);
  redelegations = pair_map (λ v. v);
  unbonding_delegations = pair_map (λ v. v);
  signing_infos = pair_map (λ v. v);
  Other = Unit {0};
  all_delegations = λ _. ok (record { delegator_address = "val"; validator_address = "val" } ∷ []);
  close_iterator = λ _. ok tt;
  apply_validator_set_updates = λ s. (ok tt, s);
}

abbrev old : Ctx export_keepers
old = record {
  height = 900;
  distribution = 0;
  validators =
      (
        7 ∷ [],
        record { operator_address = "val"; unbonding_height = 30; jailed = false; rest = [] },
      )
      ∷ [];
  redelegations = (1 ∷ [], record { creation_height = 12; rest = [] } ∷ []) ∷ [];
  unbonding_delegations = (2 ∷ [], record { creation_height = 15; rest = [] } ∷ []) ∷ [];
  signing_infos = (3 ∷ [], record { start_height = 4; rest = [] }) ∷ [];
  other = tt;
}

old_exports : (prep_for_zero_height_genesis export_keepers ("val" ∷ []) old).0 ≡ ok tt
unfolding prep_for_zero_height_genesis check_addresses prep_distribution withdraw_commissions
    withdraw_rewards reinitialize_delegations reinitialize_validators reinitialize_validator
    prep_unbonding rewrite_all reset_entries reset_validators is_member prep_slashing ◌>>=◌ bytes_eq
old_exports = refl

prep_for_zero_height_genesis_example :
    IsZeroed export_keepers old (prep_for_zero_height_genesis export_keepers ("val" ∷ []) old).1
prep_for_zero_height_genesis_example =
    prep_for_zero_height_genesis_lem export_keepers (λ v s d o done key listed. listed) ("val" ∷ [])
      old (λ o. refl) old_exports

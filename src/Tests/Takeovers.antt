-- ===== src/Tests/Takeovers.antt =====
-- The theorems on the testnet of one validator at concrete inputs.
use mono_chain.Prelude.{ℕ, ◌≡◌, refl, [], ◌∷◌, bytes_eq}
use mono_chain.Sdk.Outcome.{Result, ok, err, library, ◌>>=◌}
use mono_chain.Sdk.Address.{Address}
use mono_chain.Cmd.Text.{Text}
use mono_chain.Cmd.Testnet.{
  Value, hex_bytes, pub_key, text, AppOptions, ValArgs, Keepers, Ctx, split_commas,
  get_command_args, delete, delete_all, clear_validators, fund_accounts, init_app_for_testnet,
}
use mono_chain.Cmd.Testnet.Takeover.{IsTakenOver, init_app_for_testnet_lem, no_accounts_exit}

-- An account is its own address, and must not be empty.
abbrev own_address : Text → Result Address
own_address [] = err (library "empty address")
own_address (c ∷ cs) = ok (c ∷ cs)

abbrev plain_text : Value → Text
plain_text (text t) = t
plain_text (hex_bytes b) = []
plain_text (pub_key key) = []
plain_text Value.other = []

abbrev testnet_keepers : Keepers
testnet_keepers = record {
  operator_codec = own_address;
  account_codec = own_address;
  pack_key = λ b. ok b;
  set_validator = λ o key s. (ok tt, record s { validators = (o, key) ∷ s.validators });
  set_validator_by_power_index = λ o key s. (ok tt, record s { power = (o, key) ∷ s.power });
  set_last_validator_power = λ a n s. (ok tt, record s { last = (a, n ∷ []) ∷ s.last });
  set_validator_adds =
      λ o key s h. (record { key = o; value = key; added = λ e. rw e }, refl, refl, refl);
  set_validator_by_power_index_adds =
      λ o key s h. (record { key = o; value = key; added = λ e. rw e }, refl, refl, refl);
  set_last_validator_power_adds =
      λ a n s h. (record { key = a; value = n ∷ []; added = λ e. rw e }, refl, refl, refl);
  Other = ℕ;
  set_validator_by_cons_addr = λ o key s. (ok tt, s);
  after_validator_created = λ a s. (ok tt, s);
  init_distribution = λ a s. (ok tt, s);
  bond_denom = λ s. ok (97 ∷ []);
  mint = λ d s. (ok tt, s);
  send_minted = λ a d s. (ok tt, s);
}

abbrev mainnet : Ctx testnet_keepers
mainnet = record {
  stores = record {
    power = (1 ∷ [], []) ∷ (2 ∷ [], []) ∷ [];
    last = (1 ∷ [], []) ∷ [];
    validators = (1 ∷ [], []) ∷ (2 ∷ [], []) ∷ [];
    queue = (3 ∷ [], []) ∷ [];
  };
  other = 0;
}

abbrev taker : ValArgs
taker = record {
  new_val_addr = 9 ∷ [];
  new_operator_address = 9 ∷ [];
  new_val_pub_key = 8 ∷ [];
  accounts_to_fund = (5 ∷ []) ∷ [];
  upgrade_to_trigger = [];
  home_dir = 7 ∷ [];
}

taken : (init_app_for_testnet testnet_keepers taker mainnet).0 ≡ ok tt
unfolding init_app_for_testnet clear_validators delete_all delete fund_accounts ◌>>=◌ bytes_eq
taken = refl

init_app_for_testnet_example :
    IsTakenOver testnet_keepers (init_app_for_testnet testnet_keepers taker mainnet).1.stores
init_app_for_testnet_example = init_app_for_testnet_lem testnet_keepers taker mainnet taken

abbrev no_accounts : AppOptions
no_accounts = record {
  new_val_addr = hex_bytes (9 ∷ []);
  user_pub_key = pub_key (8 ∷ []);
  new_op_addr = text (9 ∷ []);
  trigger_testnet_upgrade = text [];
  accounts_to_fund = text [];
  home = text (7 ∷ []);
  to_string = plain_text;
}

abbrev empty_account : ValArgs
empty_account = record taker { accounts_to_fund = [] ∷ [] }

no_accounts_parse : (get_command_args no_accounts tt).0 ≡ ok empty_account
unfolding get_command_args split_commas ◌>>=◌
no_accounts_parse = refl

no_accounts_exit_example : ¬ (init_app_for_testnet testnet_keepers empty_account mainnet).0 ≡ ok tt
no_accounts_exit_example =
    no_accounts_exit testnet_keepers no_accounts empty_account (library "empty address") mainnet
      no_accounts_parse refl refl

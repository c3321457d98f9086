-- ===== src/Tests/Disk.antt =====
-- A disk in memory, for the command that writes the files of a testnet.
use mono_chain.Prelude.{
  ◌+◌, ◌≡◌, ◌≢◌, refl, inl, inr, true, String, Option, none, some, List, [], ◌∷◌, ◌++◌, bytes_eq,
  bytes_eq_self, bytes_eq→eq, Bool-cases, if◌then◌else◌, arith,
}
use mono_chain.Prelude.Int.{ℤ, pos}
use mono_chain.Sdk.Outcome.{Result, ok, err, on_ok, not_found}
use mono_chain.Sdk.Amounts.{Coin, amount_of}
use mono_chain.Cmd.Text.{Text, codes, all_digits, decimal_value}
use mono_chain.Cmd.MultiNode.{Env, Bytes, GenesisFile}
use mono_chain.Tests.Money.{plain_math}

module _ {V : Type 0} where
  abbrev pub find : Text → List (Text × V) → Option V
  find k [] = none
  find k ((j, v) ∷ m) = if bytes_eq k j then some v else find k m

  pub find_self : (k : Text) (v : V) (m : List (Text × V)) → find k ((k, v) ∷ m) ≡ some v
  find_self k v m = rw bytes_eq_self

  pub find_other :
      (k j : Text) (v : V) (m : List (Text × V)) → k ≢ j → find k ((j, v) ∷ m) ≡ find k m
  find_other k j v m ne = elim (Bool-cases (bytes_eq k j)) [
    | inl same ↦ absurd (ne (bytes_eq→eq k j same))
    | inr other ↦ rw other
  ]

-- The files, and the genesis files.
abbrev pub Disk : Type 0
Disk = List (Text × Bytes) × List (Text × GenesisFile)

abbrev pub or_not_found : {A : Type 0} → Option A → Result A
or_not_found none = err not_found
or_not_found (some a) = ok a

abbrev pub read_file : Text → Disk → Result Bytes
read_file f s = or_not_found (find f s.0)

abbrev pub put_file : Text → Bytes → Disk → Result (Unit {0}) × Disk
put_file f b s = (ok tt, ((f, b) ∷ s.0, s.1))

abbrev pub append_to : Text → Bytes → Disk → Option Bytes → Result (Unit {0}) × Disk
append_to f b s none = (err not_found, s)
append_to f b s (some a) = put_file f (a ++ b) s

abbrev pub append_file : Text → Bytes → Disk → Result (Unit {0}) × Disk
append_file f b s = append_to f b s (find f s.0)

abbrev pub put_genesis : Text → GenesisFile → Disk → Result (Unit {0}) × Disk
put_genesis f g s = (ok tt, (s.0, (f, g) ∷ s.1))

abbrev pub small : Text → Option ℤ
small t = if all_digits t then some (pos (decimal_value t)) else none

pub add_read : (d : String) (a b : List Coin) → amount_of d (a ++ b) ≡ amount_of d a + amount_of d b
add_read d [] b = omega arith
add_read d (c ∷ cs) b = omega (arith, add_read d cs b)

pub add_coins_read :
    (a b c : List Coin) (d : String)
    → ◌≡◌ {A = Result (List Coin)} (ok (a ++ b)) (ok c)
    → amount_of d c ≡ amount_of d a + amount_of d b
add_coins_read a b c d done = let same : a ++ b ≡ c = cc done in rw (← same) (add_read d a b)

pub append_read :
    (f : Text) (b : Bytes) (s : Disk) (o : Option Bytes)
    → o ≡ find f s.0
    → (append_to f b s o).0 ≡ ok tt
    → ((a : Bytes) → read_file f s ≡ ok a → read_file f (append_to f b s o).1 ≡ ok (a ++ b))
      × ((other : Text) → other ≢ f → read_file other (append_to f b s o).1 ≡ read_file other s)
append_read f b s none e done = absurd (cc done)
append_read f b s (some a) e done = (
  (λ a' had. let same : a ≡ a' = cc (rw (← e) at had) in rw (find_self f (a ++ b) s.0, same)),
  λ other ne. rw (find_other other f (a ++ b) s.0 ne),
)

abbrev pub app_getwd : Result Text
app_getwd = ok (codes "/t")

-- Node `x` has the id `idx`, and the state of the application is the name of its directory.
abbrev pub disk : Env
disk = record {
  math = plain_math;
  State = Disk;
  mkdir_all = λ f s. (ok tt, s);
  remove_all = λ f s. (ok tt, ([], []));
  write_file = put_file;
  open_file = λ f s. on_ok (read_file f s) λ _. ok tt;
  read = read_file;
  create = λ f s. put_file f [] s;
  append = append_file;
  sync = λ f s. (ok tt, s);
  getwd = λ s. app_getwd;
  create_lem = λ f s done. (rw find_self, (λ other ne. rw (find_other other f [] s.0 ne)), refl);
  append_lem = λ f b s done.
      let (self, others) = append_read f b s (find f s.0) refl done in (self, others, refl);
  sync_lem = λ f s. ((λ other. refl), refl);
  intn = λ n s. (0, s);
  intn-lt = λ n s h. h;
  int_from_string = small;
  power_reduction = 1;
  sort_coins = λ cs. cs;
  account_text = λ a. a;
  val_address_text = λ a. a;
  initialize_node_validator_files = λ c s. (ok (codes "id" ++ c.moniker, c.moniker), s);
  Keyring = Text;
  Algo = Text;
  new_keyring = λ backend dir s. (ok dir, s);
  signing_algo = λ algo kb. ok algo;
  generate_save_coin_key = λ kb name algo s. (ok (name, codes "word"), s);
  marshal_secret = λ secret. ok secret;
  Builder = Text;
  pack_key = λ key. ok key;
  set_msgs = λ msg. ok msg.moniker;
  set_memo = λ memo b. b ++ memo;
  sign = λ kb chain_id memo name b s. (ok b, s);
  encode_tx = λ b. ok b;
  default_app_config = record {
    min_gas_prices = [];
    api_enable = true;
    api_address = [];
    grpc_address = [];
    enable_hostname_label = true;
    telemetry_enabled = true;
    prometheus_retention_time = 1;
    rest = [];
  };
  write_app_config = λ f c s. (ok tt, s);
  write_node_config = λ f c s. (ok tt, s);
  genesis_file = λ root. root ++ codes "/g";
  default_genesis = ("auth", []) ∷ ("bank", []) ∷ [];
  decode_auth = λ raw. ok (record { accounts = []; rest = raw });
  encode_auth = λ auth. ok auth.rest;
  decode_bank = λ raw. ok (record { balances = []; supply = []; rest = raw });
  encode_bank = λ bank. ok bank.rest;
  pack_accounts = λ accounts. ok accounts;
  sanitize_genesis_balances = λ bals. bals;
  add_coins = λ a b. ok (a ++ b);
  add_coins_lem = add_coins_read;
  marshal_app_state = λ g. ok [];
  genesis_at = λ f s. find f s.1;
  save_as = put_genesis;
  now = λ s. 7;
  app_genesis_from_file = λ f s. or_not_found (find f s.1);
  gen_app_state_from_config = λ chain_id dir id key g s. (ok id, s);
  export_genesis_file_with_time = put_genesis;
  gen_app_state_lem = λ chain_id dir id key g s c. (refl, λ f ne. refl);
  export_genesis_file_lem =
      λ f g s done. (find_self f g s.1, λ other ne. find_other other f g s.1 ne);
  write_node_config_lem = λ root home c s. refl;
}

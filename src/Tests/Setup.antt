-- ===== src/Tests/Setup.antt =====
-- The theorems on the set-up of the application and on the export command at concrete inputs.
use mono_chain.Prelude.{ℕ, ◌≡◌, refl, true, false, Bool, String, none, List, []}
use mono_chain.Prelude.Int.{ℤ, pos}
use mono_chain.Sdk.Outcome.{Result, ok, Action, ◌>>=◌}
use mono_chain.Cmd.Text.{codes}
use mono_chain.Cmd.Testnet.{text}
use mono_chain.Cmd.ExportCmd.{app_export}
use mono_chain.App.Setup.{Libraries, Options, App, finish_new}
use mono_chain.App.Setup.Wired.{IsWired, finish_new_lem}

-- The handlers are numbers, and the mempool is its size.
abbrev plain : Libraries
plain = record {
  Keepers = ℕ;
  AnteHandler = ℕ;
  PostHandler = ℕ;
  Mempool = ℤ;
  CheckTx = ℤ;
  Proposals = ℤ;
  Methods = ℕ;
  PoolConfig = ℕ;
  MinTip = ℕ;
  new_post_handler = ok 3;
  new_check_tx_handler = λ m. m;
  new_proposal_handler = λ m. m;
}

abbrev options : Options plain
options = record {
  max_tx_gas_wanted = 0;
  chain_config_set = true;
  cosmos_pool_max_tx = pos 5000;
  legacy_pool_config = 0;
  block_gas_limit = 30;
  min_tip = 0;
  validate_options = λ o. ok tt;
  new_ante_handler = λ o. o.keepers;
  new_evm_mempool = λ c n. n;
  register_services = ok tt;
  new_reflection_service = ok tt;
  merged_registry = ok tt;
  load_latest_version = ok tt;
}

abbrev blank : App plain
blank = record {
  keepers = 9;
  circuit_breaker = none;
  methods = none;
  ante_handler = none;
  post_handler = none;
  evm_mempool = none;
  base_mempool = none;
  check_tx_handler = none;
  proposals = none;
  stores_mounted = false;
  loaded = false;
}

finished : (finish_new options 1 true blank).0 ≡ ok tt
unfolding finish_new ◌>>=◌
finished = refl

finish_new_example : IsWired options 1 true blank (finish_new options 1 true blank).1
finish_new_example = finish_new_lem options 1 true blank finished

-- The application is the height that it was loaded at, and 77 at its last version.
abbrev new_at : Bool → Result ℤ
new_at true = ok (pos 77)
new_at false = ok (pos 0)

abbrev to_height : ℤ → Action ℤ (Unit {0})
to_height height app = (ok tt, height)

abbrev height_of : Bool → List String → List String → Action ℤ ℤ
height_of zero_height allowed modules app = (ok app, app)

at_12 :
    app_export new_at to_height height_of (text (codes "/h")) true (pos 12) false [] []
    ≡ ok (pos 12)
unfolding app_export
at_12 = refl

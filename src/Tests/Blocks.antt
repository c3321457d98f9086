-- ===== src/Tests/Blocks.antt =====
-- The theorems on the order of the modules at concrete inputs: an application of x/burn alone.
use mono_chain.Prelude.{
  ◌≡◌, ◌≢◌, refl, String, List, [], ◌∷◌, Option, none, some, str_eq, eq_iff, bytes_eq, Bool-cases,
  inl, inr, if◌then◌else◌,
}
use mono_chain.Prelude.Int.{◌+ℤ◌}
use mono_chain.Sdk.Outcome.{ok, Action, ◌>>=◌, >>=_inv}
use mono_chain.Sdk.Amounts.{int_limit, dec_limit}
use mono_chain.Burn.Keeper.{Ctx, process_fee_burn, burn_from_module, burn_native, update_trackers}
use mono_chain.Burn.Keeper.Fees.{IsFeeBurned, share}
use mono_chain.Burn.Types.{GenesisState}
use mono_chain.Burn.Server.{begin_block}
use mono_chain.Burn.Genesis.{init_accounts, init_genesis}
use mono_chain.App.Blocks.{
  Manager, Modules, section, new_evm_genesis_state, begin_blockers, genesis_module_order,
  begin_blocker, init_chainer,
}
use mono_chain.App.Blocks.Order.{
  after_burn, from_genutil, begin_blocker_burns_first, init_chainer_stores_params, HasRead,
}
use mono_chain.Burn.Module as BurnAppModule
use mono_chain.Burn.Module.{new_app_module}
use mono_chain.Tests.Modules.{plain_json}
use mono_chain.Tests.Ledger.{named, send, destroy}
use mono_chain.Tests.Burns.{keeper, state, rate, quarter, genesis, empty}

unfoldable in_turn :
    {S : Type 0} → (String → Action S (Unit {0})) → List String → Action S (Unit {0})
in_turn h [] s = (ok tt, s)
in_turn h (m ∷ ms) s = (h m >>= λ _. in_turn h ms) s

in_turn_first :
    {S : Type 0} (h : String → Action S (Unit {0})) (m : String) (ms : List String) (s : S)
    → (in_turn h (m ∷ ms) s).0 ≡ ok tt
    → ((h m s).0 ≡ ok tt) × (in_turn h (m ∷ ms) s ≡ in_turn h ms (h m s).1)
unfolding in_turn
in_turn_first h m ms s done = let (_, e, q) = >>=_inv (h m) (λ _. in_turn h ms) s done in (e, q)

abbrev in_turn_manager : Manager (Ctx keeper)
unfolding in_turn
in_turn_manager = record { run = in_turn; run_none = λ h s. refl; run_first = in_turn_first }

-- Only x/burn does anything.
abbrev only_burn : Action (Ctx keeper) (Unit {0}) → String → Action (Ctx keeper) (Unit {0})
only_burn m name s = if str_eq name "burn" then m s else (ok tt, s)

abbrev genesis_of : Option GenesisState → Action (Ctx keeper) (Unit {0})
genesis_of none s = (ok tt, s)
genesis_of (some raw) s =
    BurnAppModule.init_genesis (new_app_module plain_json keeper keeper.address_codec) raw s

abbrev burn_alone : Modules keeper
burn_alone = record {
  State = Ctx keeper;
  manager = in_turn_manager;
  view = λ s. s;
  pre_block = only_burn (λ s. (ok tt, s));
  begin = only_burn (begin_block keeper);
  end_of_block = only_burn (λ s. (ok tt, s));
  begin_burn = λ s. refl;
  burn_json = plain_json;
  init = λ g. only_burn (genesis_of (section "burn" g));
  init_burn = λ g raw s here. rw here refl;
  unmarshal = λ b. ok (("burn", genesis) ∷ []);
  with_default_preinstalls = λ r. ok r;
  set_module_version_map = λ s. (ok tt, s);
}

block_begins : (begin_blocker burn_alone state).0 ≡ ok tt
unfolding begin_blocker begin_blockers in_turn begin_block process_fee_burn burn_from_module
    burn_native update_trackers ◌>>=◌ send destroy bytes_eq int_limit dec_limit ◌+ℤ◌
block_begins = refl

begin_blocker_burns_first_example :
    IsFeeBurned keeper rate
      (share quarter (keeper.bank.balance (named "fee_collector") "alyth" state.bank))
      state
      (burn_alone.begin "burn" state).1
    × (begin_blocker burn_alone state
        ≡ burn_alone.manager.run burn_alone.begin after_burn (burn_alone.begin "burn" state).1)
begin_blocker_burns_first_example =
    begin_blocker_burns_first keeper burn_alone state rate quarter refl refl block_begins

chain_starts : (init_chainer burn_alone "{}" empty).0 ≡ ok tt
unfolding init_chainer new_evm_genesis_state section in_turn genesis_module_order init_genesis
    BurnAppModule.init_genesis init_accounts ◌>>=◌ bytes_eq
chain_starts = refl

leaves_params :
    (g : List (String × GenesisState)) (m : String) (s : Ctx keeper)
    → m ≢ "burn"
    → (burn_alone.init g m s).1.params ≡ s.params
leaves_params g m s other = elim (Bool-cases (str_eq m "burn")) [
  | inl same ↦ absurd (other ((eq_iff m "burn").0 same))
  | inr differs ↦ rw differs
]

init_chainer_stores_params_example :
    (g' : List (String × GenesisState)) × (s' : Ctx keeper) × (init_chainer burn_alone "{}" empty
      ≡ burn_alone.manager.run (burn_alone.init g') from_genutil s')
    × HasRead keeper burn_alone genesis s'
unfolding section
init_chainer_stores_params_example =
    init_chainer_stores_params keeper burn_alone "{}" (("burn", genesis) ∷ []) genesis empty refl
      refl leaves_params chain_starts

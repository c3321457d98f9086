-- ===== src/Burn/Keeper.antt =====
-- x/burn/keeper: the keeper's state and its methods (keeper.go, burn.go, fee_burn.go).
pub mod Trackers
pub mod Burns
pub mod Fees
pub mod Room
pub mod Progress
use mono_chain.Prelude.{not, String, List, [], ◌∷◌, ◌++◌, str_eq}
use mono_chain.Sdk.Outcome.{
  invalid_burn_denom, burn, Result, ok, Action, lift, fail_if, return_unless, ◌>>=◌, ◌>>◌,
  or_if_not_found,
}
use mono_chain.Sdk.Amounts.{MathInt, zero_int, Coin, Math, is_positive, written_amount}
use mono_chain.Sdk.Collections.{Item, Sequence, Map}
use mono_chain.Sdk.Bank.{Bank}
use mono_chain.Sdk.Address.{Address, Codec}
use mono_chain.Burn.Types.{
  Params, written_params, module_name, fee_collector_name, default_bond_denom,
}

-- What `NewKeeper` is given, and the collections that it builds. The store service and the codec
-- are inside the collections.
pub record Keeper : Type 1 where
  pub address_codec : Codec
  pub authority : String
  pub params : Item Params written_params
  pub global_burn_count : Sequence
  pub global_burn_total : Item MathInt written_amount
  pub account_burn_total : Map Address MathInt written_amount
  pub bank : Bank
  pub math : Math

pub record Event : Type 0 where
  pub kind : String
  pub attributes : List (String × String)

module _ (k : Keeper) where
  -- The context: what the collections and the bank hold, and the events emitted so far.
  pub record Ctx : Type 0 where
    pub params : k.params.State
    pub count : k.global_burn_count.State
    pub total : k.global_burn_total.State
    pub accounts : k.account_burn_total.State
    pub bank : k.bank.State
    pub events : List Event

module _ {k : Keeper} where
  -- A method of one collection, or of the bank, in the whole context.
  abbrev pub on_params : {A : Type 0} → Action k.params.State A → Action (Ctx k) A
  on_params m c = let (r, s) = m c.params in (r, record c { params = s })

  abbrev pub on_count : {A : Type 0} → Action k.global_burn_count.State A → Action (Ctx k) A
  on_count m c = let (r, s) = m c.count in (r, record c { count = s })

  abbrev pub on_total : {A : Type 0} → Action k.global_burn_total.State A → Action (Ctx k) A
  on_total m c = let (r, s) = m c.total in (r, record c { total = s })

  abbrev pub on_accounts : {A : Type 0} → Action k.account_burn_total.State A → Action (Ctx k) A
  on_accounts m c = let (r, s) = m c.accounts in (r, record c { accounts = s })

  abbrev pub on_bank : {A : Type 0} → Action k.bank.State A → Action (Ctx k) A
  on_bank m c = let (r, s) = m c.bank in (r, record c { bank = s })

  abbrev pub emit : Event → Action (Ctx k) (Unit {0})
  emit e c = (ok tt, record c { events = c.events ++ (e ∷ []) })

module _ (k : Keeper) where
  open k use {math}

  -- `Keeper.GetAuthority`
  unfoldable pub get_authority : String
  get_authority = k.authority

  -- `Keeper.GetGlobalBurnTotal`
  abbrev pub get_global_burn_total : Ctx k → Result MathInt
  get_global_burn_total c = or_if_not_found (k.global_burn_total.get c.total) zero_int

  -- `Keeper.GetAccountBurnTotal`
  abbrev pub get_account_burn_total : Address → Ctx k → Result MathInt
  get_account_burn_total a c = or_if_not_found (k.account_burn_total.get a c.accounts) zero_int

  -- `Keeper.updateTrackers`
  unfoldable pub update_trackers : Address → Coin → Action (Ctx k) (Unit {0})
  update_trackers sender native_coin = do
    on_count k.global_burn_count.next
    global_total ← λ c. (get_global_burn_total c, c)
    next_global_total ← lift (math.add global_total native_coin.amount)
    on_total (k.global_burn_total.set next_global_total)
    account_total ← λ c. (get_account_burn_total sender c, c)
    next_account_total ← lift (math.add account_total native_coin.amount)
    on_accounts (k.account_burn_total.set sender next_account_total)

  -- `Keeper.burnNative`
  unfoldable pub burn_native : Address → Coin → Action (Ctx k) (Unit {0})
  burn_native sender native_coin = do
    positive ← lift (is_positive native_coin.amount)
    return_unless positive do
      fail_if (not (str_eq native_coin.denom default_bond_denom)) (burn invalid_burn_denom)
      coins ← lift (math.new_coins native_coin)
      on_bank (k.bank.burn_coins module_name coins)
      update_trackers sender native_coin

  -- `Keeper.BurnFromAccount`
  unfoldable pub burn_from_account : Address → Coin → Action (Ctx k) (Unit {0})
  burn_from_account sender native_coin = do
    coins ← lift (math.new_coins native_coin)
    on_bank (k.bank.account_to_module sender module_name coins)
    burn_native sender native_coin

  -- `Keeper.BurnFromModule`
  unfoldable pub burn_from_module : String → Coin → Action (Ctx k) (Unit {0})
  burn_from_module sender_module native_coin = do
    coins ← lift (math.new_coins native_coin)
    on_bank (k.bank.module_to_module sender_module module_name coins)
    burn_native (k.bank.module_address sender_module) native_coin

  -- The event of `ProcessFeeBurn`.
  abbrev pub fee_burn_event : Params → Coin → Event
  fee_burn_event p coin = record {
    kind = "fee_burn";
    attributes =
        ("burn_percent", math.dec_string p.fee_burn_percent)
        ∷ ("amount", math.coin_string coin)
        ∷ [];
  }

  -- `Keeper.ProcessFeeBurn`, which `AppModule.BeginBlock` of x/burn/abci.go calls.
  unfoldable pub process_fee_burn : Action (Ctx k) (Unit {0})
  process_fee_burn = do
    params ← λ c. (k.params.get c.params, c)
    native_coin ← λ c. (
      ok (k.bank.get_balance (k.bank.module_address fee_collector_name) default_bond_denom c.bank),
      c,
    )
    burnable ← lift (math.mul_int params.fee_burn_percent native_coin.amount)
    burnable_amount ← lift (math.truncate_int burnable)
    positive ← lift (is_positive burnable_amount)
    return_unless positive do
      burnable_coin ← lift (math.new_coin default_bond_denom burnable_amount)
      burn_from_module fee_collector_name burnable_coin
      emit (fee_burn_event params burnable_coin)

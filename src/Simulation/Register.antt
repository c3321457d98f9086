-- ===== src/Simulation/Register.antt =====
-- x/validator/simulation/msg_factory.go: registrations that the simulator makes up.
use mono_chain.Prelude.{
  ℕ, ◌+◌, ◌-◌, ◌≤◌, ◌≡◌, refl, arith, subst, true, false, Bool-cases, inl, inr, ltb, List, String,
  Option, none, some, str_eq, eq_iff, if◌then◌else◌,
}
use mono_chain.Prelude.Int.{pos, negsuc}
use mono_chain.Sdk.Outcome.{Result, Result-cases, ok, err}
use mono_chain.Sdk.Amounts.{MathInt, int, int_lt}
use mono_chain.Sdk.Address.{Address, Codec}
use mono_chain.Burn.Types.{default_bond_denom}
use mono_chain.Validator.Types.{Params, MsgRegisterValidator}
use mono_chain.Validator.Keeper.{validate_registration_funds}
use mono_chain.Simulation.Params.{native_coin}

-- An account of the simulation; `available` is its liquid balance of the bond denomination.
pub record SimAccount : Type 0 where
  pub address : Address
  pub address_bech32 : String
  pub available : ℕ

-- The random source: `r.PositiveSDKIntInRange(lo, hi)` draws a number from `lo` to `hi`, or fails.
pub record Source : Type 0 where
  pub in_range : (lo hi : ℕ) → Result ℕ
  pub in_range_lem : (lo hi n : ℕ) → in_range lo hi ≡ ok n → lo ≤ hi → (lo ≤ n) × (n ≤ hi)

abbrev pub plus_drawn : ℕ → Result ℕ → ℕ
plus_drawn least (ok delta) = least + delta
plus_drawn least (err e) = least

-- An amount from `least` to `most`, or `least` where there is no room or no luck. `math.Int` goes
-- below zero where ℕ stops, and either way there is no room then.
unfoldable pub drawn_amount : Source → (least most : ℕ) → ℕ
drawn_amount r least most =
    if ltb least most then plus_drawn least (r.in_range 0 (most - least)) else least

-- The amounts that are burned and delegated.
unfoldable pub burn_amount : Source → (min_burn min_self available : ℕ) → ℕ
unfolding drawn_amount
burn_amount r min_burn min_self available = drawn_amount r min_burn (available - min_self)

unfoldable pub self_delegation : Source → (min_self available burned : ℕ) → ℕ
unfolding drawn_amount
self_delegation r min_self available burned = drawn_amount r min_self (available - burned)

-- The amount of a parameter. `Params.Validate` refuses those without one.
abbrev pub amount_of_param : MathInt → Option ℕ
amount_of_param (int (pos n)) = some n
amount_of_param (int (negsuc n)) = none
amount_of_param MathInt.nil = none

-- `rest` is the description, the commission and the key of the validator.
abbrev pub registration :
    Params
    → SimAccount
    → (validator_address : String) (rest : List ℕ) (burned self : ℕ) → MsgRegisterValidator
registration params sender validator_address rest burned self = record {
  sender = sender.address_bech32;
  create_validator = record {
    validator_address = validator_address;
    value = native_coin self;
    min_self_delegation = int (pos self);
    rest = rest;
  };
  burn = record { denom = params.validator_registration_burn.denom; amount = int (pos burned) };
}

abbrev pub answer : {A : Type 0} → Result A → Option A
answer (ok a) = some a
answer (err e) = none

-- Go on, or skip the message.
abbrev pub or_skip : {A B : Type 0} → Option A → (A → Option B) → Option B
or_skip none f = none
or_skip (some a) f = f a

-- `MsgRegisterValidatorFactory`: no message where the parameters cannot be read, no account is
-- eligible, or its address has no text. `any_account n` chooses an account that is no validator
-- yet and has `n` at least; `burn_source` and `self_source` are the two draws.
unfoldable pub register_factory :
    (any_account : ℕ → Option SimAccount) (codec : Codec) (burn_source self_source : Source)
    (rest : List ℕ)
    → Result Params
    → Option (SimAccount × MsgRegisterValidator)
unfolding burn_amount self_delegation
register_factory any_account codec burn_source self_source rest params_read =
    or_skip (answer params_read) λ params.
      or_skip (amount_of_param params.validator_registration_burn.amount) λ min_burn.
        or_skip (amount_of_param params.validator_min_self_delegation.amount) λ min_self.
          or_skip (any_account (min_burn + min_self)) λ sender.
            or_skip (answer (codec.bytes_to_string sender.address)) λ validator_address.
              let burned = burn_amount burn_source min_burn min_self sender.available in
              let self = self_delegation self_source min_self sender.available burned in
              some (sender, registration params sender validator_address rest burned self)

pub or_skip_inv :
    {A B : Type 0} (o : Option A) (f : A → Option B) {b : B}
    → or_skip o f ≡ some b
    → (a : A) × (o ≡ some a) × (f a ≡ some b)
or_skip_inv none f h = absurd (cc h)
or_skip_inv (some a) f h = (a, refl, h)

drawn_amount-le :
    (r : Source) (least most : ℕ)
    → (least ≤ drawn_amount r least most) × (least ≤ most → drawn_amount r least most ≤ most)
unfolding drawn_amount
drawn_amount-le r least most = elim (Bool-cases (ltb least most)) [
  | inr full ↦ (rw full (omega arith), λ room. rw full room)
  | inl room ↦ elim (Result-cases (r.in_range 0 (most - least))) [
    | inr (e, failed) ↦ (rw (room, failed) (omega arith), λ wide. rw (room, failed) wide)
    | inl (n, drawn) ↦
        let (low, high) = r.in_range_lem 0 (most - least) n drawn (omega arith) in
        (rw (room, drawn) (omega arith), λ wide. rw (room, drawn) (omega arith))
  ]
]

str_eq_self : (s : String) → str_eq s s ≡ true
str_eq_self s = (eq_iff s s).1 refl

reached :
    (n least : ℕ) (r : MathInt)
    → amount_of_param r ≡ some least
    → least ≤ n
    → int_lt (int (pos n)) r ≡ ok false
reached n least MathInt.nil e h = absurd (cc e)
reached n least (int (negsuc m)) e h = absurd (cc e)
reached n least (int (pos m)) e h = let same : m ≡ least = cc e in ground arith

-- A message in which the amounts reach those of the parameters passes the checks.
registration_passes :
    (params : Params) (sender : SimAccount) (address : String) (rest : List ℕ)
    (min_burn min_self burned self : ℕ)
    → amount_of_param params.validator_registration_burn.amount ≡ some min_burn
    → amount_of_param params.validator_min_self_delegation.amount ≡ some min_self
    → params.validator_min_self_delegation.denom ≡ default_bond_denom
    → min_burn ≤ burned
    → min_self ≤ self
    → validate_registration_funds (registration params sender address rest burned self) params
      ≡ ok tt
unfolding validate_registration_funds
registration_passes params sender address rest min_burn min_self burned self is_burn is_self denom
      high_burn high_self =
    rw (
      str_eq_self params.validator_registration_burn.denom,
      reached burned min_burn _ is_burn high_burn,
      denom,
      reached self min_self _ is_self high_self,
    )

amounts_fit :
    (burn_source self_source : Source) (min_burn min_self available : ℕ)
    → min_burn + min_self ≤ available
    → let burned = burn_amount burn_source min_burn min_self available in
      let self = self_delegation self_source min_self available burned in
      (min_burn ≤ burned) × (min_self ≤ self) × (burned + self ≤ available)
unfolding burn_amount self_delegation
amounts_fit burn_source self_source min_burn min_self available enough =
    let burned = drawn_amount burn_source min_burn (available - min_self) in
    let (low_burn, high_burn) = drawn_amount-le burn_source min_burn (available - min_self) in
    let (low_self, high_self) = drawn_amount-le self_source min_self (available - burned) in
    let fits : burned ≤ available - min_self = high_burn (omega arith) in
    let rest_fits = high_self (omega arith) in (low_burn, low_self, omega arith)

-- What holds of a message that the simulator makes up for an account.
pub record Fits (params : Params) (sender : SimAccount) (msg : MsgRegisterValidator) : Type 0 where
  pub passes : validate_registration_funds msg params ≡ ok tt
  pub burned : ℕ
  pub is_burned : msg.burn.amount ≡ int (pos burned)
  pub self : ℕ
  pub is_self : msg.create_validator.value.amount ≡ int (pos self)
  pub covered : burned + self ≤ sender.available

made_Fits :
    (burn_source self_source : Source) (rest : List ℕ) (params : Params) (min_burn min_self : ℕ)
    (a : SimAccount) (address : String) (sender : SimAccount) (msg : MsgRegisterValidator)
    → amount_of_param params.validator_registration_burn.amount ≡ some min_burn
    → amount_of_param params.validator_min_self_delegation.amount ≡ some min_self
    → min_burn + min_self ≤ a.available
    → params.validator_min_self_delegation.denom ≡ default_bond_denom
    → let burned = burn_amount burn_source min_burn min_self a.available in
      let self = self_delegation self_source min_self a.available burned in
      ◌≡◌ {A = Option (SimAccount × MsgRegisterValidator)}
        (some (a, registration params a address rest burned self))
        (some (sender, msg))
      → Fits params sender msg
made_Fits burn_source self_source rest params min_burn min_self a address sender msg e1 e2 enough
      denom made =
    let burned = burn_amount burn_source min_burn min_self a.available in
    let self = self_delegation self_source min_self a.available burned in
    let (low_burn, low_self, covered) =
      amounts_fit burn_source self_source min_burn min_self a.available enough in
    let fits : Fits params a (registration params a address rest burned self) = record {
      passes =
          registration_passes params a address rest min_burn min_self burned self e1 e2 denom
            low_burn low_self;
      burned = burned;
      is_burned = refl;
      self = self;
      is_self = refl;
      covered = covered;
    } in
    let same : ◌≡◌ {A = SimAccount × MsgRegisterValidator}
        (a, registration params a address rest burned self) (sender, msg) =
      cc made in
    subst (λ (p : SimAccount × MsgRegisterValidator). Fits params p.0 p.1) same fits

-- Where the parameters ask for the delegation in the bond denomination, and an account that is
-- chosen has what is asked for, the message that the simulator makes up passes the checks of a
-- registration, and does not spend more than the account has.
pub register_factory-Fits :
    (any_account : ℕ → Option SimAccount) (codec : Codec) (burn_source self_source : Source)
    (rest : List ℕ) (params : Params) (sender : SimAccount) (msg : MsgRegisterValidator)
    → ((n : ℕ) (a : SimAccount) → any_account n ≡ some a → n ≤ a.available)
    → params.validator_min_self_delegation.denom ≡ default_bond_denom
    → register_factory any_account codec burn_source self_source rest (ok params)
      ≡ some (sender, msg)
    → Fits params sender msg
unfolding register_factory
register_factory-Fits any_account codec burn_source self_source rest params sender msg enough denom
      made =
    let (min_burn, e1, h1) =
      or_skip_inv (amount_of_param params.validator_registration_burn.amount) _ made in
    let (min_self, e2, h2) =
      or_skip_inv (amount_of_param params.validator_min_self_delegation.amount) _ h1 in
    let (a, e3, h3) = or_skip_inv (any_account (min_burn + min_self)) _ h2 in
    let (address, e4, h4) = or_skip_inv (answer (codec.bytes_to_string a.address)) _ h3 in
    made_Fits burn_source self_source rest params min_burn min_self a address sender msg e1 e2
      (enough _ a e3) denom h4

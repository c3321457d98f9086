-- ===== src/Burn/Types.antt =====
-- x/burn/types: parameters, messages, genesis state and the stateless checks.
use mono_chain.Prelude.{
  ℕ, ◌≡◌, refl, Bool, true, false, ◌||◌, String, List, [], ◌∷◌, map, if◌then◌else◌,
}
use mono_chain.Prelude.Int.{pos, ltb_ℤ}
use mono_chain.Sdk.Outcome.{
  first_error, invalid_burn_total, invalid_fee_burn_percent, burn, Result, ok, err,
}
use mono_chain.Sdk.Amounts.{MathInt, int, Dec18, dec, Coin, one, written_dec, written_amount}
use mono_chain.Sdk.Address.{Codec}

-- `ModuleName`, and the names of the other module accounts that the keeper uses.
abbrev pub module_name : String
module_name = "burn"

abbrev pub fee_collector_name : String
fee_collector_name = "fee_collector"

-- `sdk.DefaultBondDenom`, as app/config.go sets it.
abbrev pub default_bond_denom : String
default_bond_denom = "alyth"

pub record Params : Type 0 where
  pub fee_burn_percent : Dec18

-- Parameters as they are written, in a store or as JSON.
abbrev pub written_params : Params → Params
written_params p = record { fee_burn_percent = written_dec p.fee_burn_percent }

abbrev pub default_params : Params
default_params = record { fee_burn_percent = dec (pos 0) }

unfoldable pub validate_fee_burn_percent : Dec18 → Result (Unit {0})
validate_fee_burn_percent Dec18.nil = err (burn invalid_fee_burn_percent)
validate_fee_burn_percent (dec v) =
    if ltb_ℤ v (pos 0) || ltb_ℤ (pos one) v then err (burn invalid_fee_burn_percent) else ok tt

-- `Params.Validate`
unfoldable pub validate_params : Params → Result (Unit {0})
unfolding validate_fee_burn_percent
validate_params p = validate_fee_burn_percent p.fee_burn_percent

-- Parameters that are accepted are written as they are.
pub written_params-valid : (p : Params) → validate_params p ≡ ok tt → written_params p ≡ p
unfolding validate_params validate_fee_burn_percent
written_params-valid p h = by_rate p.fee_burn_percent h
  where
    by_rate :
        (d : Dec18)
        → validate_fee_burn_percent d ≡ ok tt
        → written_params (record { fee_burn_percent = d }) ≡ record { fee_burn_percent = d }
    by_rate Dec18.nil h = absurd (cc h)
    by_rate (dec v) h = refl

pub record MsgBurn : Type 0 where
  pub from_address : String
  pub amount : Coin

abbrev pub new_msg_burn : String → Coin → MsgBurn
new_msg_burn from_address amount = record { from_address = from_address; amount = amount }

pub record MsgUpdateParams : Type 0 where
  pub authority : String
  pub params : Params

pub record AccountBurnRecord : Type 0 where
  pub address : String
  pub total : MathInt

pub record GenesisState : Type 0 where
  pub params : Params
  pub count : ℕ
  pub total : MathInt
  pub account_totals : List AccountBurnRecord

-- A nil amount or rate is written as zero.
abbrev pub written_record : AccountBurnRecord → AccountBurnRecord
written_record r = record r { total = written_amount r.total }

abbrev pub written_genesis : GenesisState → GenesisState
written_genesis gs = record gs {
  params = written_params gs.params;
  total = written_amount gs.total;
  account_totals = map written_record gs.account_totals;
}

abbrev pub default_genesis_state : GenesisState
default_genesis_state = record {
  params = default_params;
  count = 0;
  total = MathInt.nil;
  account_totals = [];
}

-- `!total.IsNil() && total.IsNegative()`
abbrev pub is_negative_total : MathInt → Bool
is_negative_total MathInt.nil = false
is_negative_total (int v) = ltb_ℤ v (pos 0)

-- `total.IsNil() || total.IsNegative()`
abbrev pub is_bad_total : MathInt → Bool
is_bad_total MathInt.nil = true
is_bad_total (int v) = ltb_ℤ v (pos 0)

module _ (codec : Codec) where
  open codec use {string_to_bytes}

  -- The loop of `GenesisState.Validate` over the account totals.
  unfoldable pub validate_records : List AccountBurnRecord → Result (Unit {0})
  validate_records [] = ok tt
  validate_records (r ∷ rs) =
      let rest = validate_records rs in
      first_error (string_to_bytes r.address)
        (if is_bad_total r.total then err (burn invalid_burn_total) else rest)

  -- `GenesisState.Validate`
  unfoldable pub validate_genesis : GenesisState → Result (Unit {0})
  validate_genesis gs = first_error (validate_params gs.params) (
      if is_negative_total gs.total
      then err (burn invalid_burn_total)
      else validate_records gs.account_totals)

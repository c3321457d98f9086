-- ===== src/Sdk/Amounts.antt =====
-- cosmossdk.io/math and the coins of the SDK's types: an `MathInt` or a `Dec` is nil or the number that
-- it stands for, and what the library computes or validates is a parameter.
use mono_chain.Prelude.{
  refl, arith, ℕ, zero, suc, ◌*◌, ◌/◌, ◌^◌, ◌≡◌, Bool, true, false, String, List, [], ◌∷◌, ltb,
  str_eq, if◌then◌else◌, ◌+◌,
}
use mono_chain.Prelude.Int.{ℤ, pos, negsuc, ◌+ℤ◌, magnitude, ltb_ℤ}
use mono_chain.Sdk.Outcome.{panicked, Result, ok, err}

-- `math.Int`; the zero value of the Go type is nil.
pub data MathInt : Type 0 where
  nil : MathInt
  int : ℤ → MathInt

-- `math.LegacyDec`, in units of 10^-18.
pub data Dec18 : Type 0 where
  nil : Dec18
  dec : ℤ → Dec18

pub record Coin : Type 0 where
  pub denom : String
  pub amount : MathInt

-- `math.ZeroInt()`
abbrev pub zero_int : MathInt
zero_int = int (pos 0)

-- An amount as its codecs write it: nil is written as zero.
abbrev pub written_amount : MathInt → MathInt
written_amount MathInt.nil = zero_int
written_amount (int v) = int v

abbrev pub written_dec : Dec18 → Dec18
written_dec Dec18.nil = dec (pos 0)
written_dec (dec v) = dec v

abbrev pub written_coin : Coin → Coin
written_coin c = record c { amount = written_amount c.amount }

abbrev pub int_value : MathInt → ℤ
int_value MathInt.nil = pos 0
int_value (int z) = z

-- One in units of 10^-18.
abbrev pub one : ℕ
one = 1_000_000_000_000_000_000

-- The bounds past which the library panics: 256 bits for `MathInt`, 315 bits for `Dec18`.
unfoldable pub int_limit : ℕ
int_limit = 2 ^ 256

unfoldable pub dec_limit : ℕ
dec_limit = 2 ^ 315

-- `math.Int.LT`, which panics on nil.
abbrev pub int_lt : MathInt → MathInt → Result Bool
int_lt (int a) (int b) = ok (ltb_ℤ a b)
int_lt MathInt.nil b = err panicked
int_lt (int a) MathInt.nil = err panicked

-- What the documentation of `math.Int.Add` promises: the sum, or a panic past 256 bits or on nil.
abbrev pub int_sum : MathInt → MathInt → Result MathInt
int_sum MathInt.nil b = err panicked
int_sum (int a) MathInt.nil = err panicked
int_sum (int a) (int b) =
    if ltb (magnitude (a +ℤ b)) int_limit then ok (int (a +ℤ b)) else err panicked

-- `math.Int.IsPositive`, which panics on nil.
abbrev pub is_positive : MathInt → Result Bool
is_positive MathInt.nil = err panicked
is_positive (int z) = ok (ltb_ℤ (pos 0) z)

-- What the documentation of `sdk.NewCoins` says of one coin: zero coins are dropped, and what is
-- left has to be valid.
abbrev pub sanitized : (String → Bool) → Coin → MathInt → Result (List Coin)
sanitized valid c MathInt.nil = err panicked
sanitized valid c (int (negsuc n)) = err panicked
sanitized valid c (int (pos zero)) = ok []
sanitized valid c (int (pos (suc n))) = if valid c.denom then ok (c ∷ []) else err panicked

-- `Coin.Validate` accepts a valid denomination with an amount that is neither nil nor negative.
abbrev pub coin_is_valid : (String → Bool) → String → MathInt → Bool
coin_is_valid valid d MathInt.nil = false
coin_is_valid valid d (int (negsuc n)) = false
coin_is_valid valid d (int (pos n)) = valid d

-- A sum is written as it is.
pub int_sum-written : (a b c : MathInt) → int_sum a b ≡ ok c → written_amount c ≡ c
int_sum-written MathInt.nil b c h = absurd (cc h)
int_sum-written (int a) MathInt.nil c h = absurd (cc h)
int_sum-written (int a) (int b) MathInt.nil h = ground arith
int_sum-written (int a) (int b) (int v) h = refl

-- The library's operations and what its documentation says of them.
pub record Math : Type 0 where
  -- `math.Int.Add`
  pub add : MathInt → MathInt → Result MathInt
  pub add_lem : (a b : MathInt) → add a b ≡ int_sum a b
  -- `LegacyDec.MulInt` and `LegacyDec.TruncateInt`
  pub mul_int : Dec18 → MathInt → Result Dec18
  pub mul_int_lem :
      (p n : ℕ)
      → mul_int (dec (pos p)) (int (pos n))
        ≡ (if ltb (p * n) dec_limit then ok (dec (pos (p * n))) else err panicked)
  pub truncate_int : Dec18 → Result MathInt
  pub truncate_int_lem : (p : ℕ) → truncate_int (dec (pos p)) ≡ ok (int (pos (p / one)))
  -- `ValidateDenom`
  pub valid_denom : String → Bool
  pub alyth_valid : valid_denom "alyth" ≡ true
  -- `sdk.NewCoin` and `sdk.NewCoins`
  pub new_coin : String → MathInt → Result Coin
  pub new_coin_lem :
      (d : String) (z : MathInt)
      → new_coin d z ≡ (
          if coin_is_valid valid_denom d z
          then ok (record { denom = d; amount = z })
          else err panicked)
  pub new_coins : Coin → Result (List Coin)
  pub new_coins_lem : (c : Coin) → new_coins c ≡ sanitized valid_denom c c.amount
  -- `Coin.Validate`, true where it returns no error
  pub validate_coin : Coin → Bool
  pub validate_coin_lem : (c : Coin) → validate_coin c ≡ coin_is_valid valid_denom c.denom c.amount
  -- the texts of events and query answers
  pub int_string : MathInt → String
  pub dec_string : Dec18 → String
  pub coin_string : Coin → String

abbrev pub pos_amount : MathInt → ℕ
pos_amount MathInt.nil = 0
pos_amount (int (pos n)) = n
pos_amount (int (negsuc n)) = 0

-- What a list of coins holds in one denomination.
abbrev pub amount_of : String → List Coin → ℕ
amount_of d [] = 0
amount_of d (c ∷ cs) = (if str_eq c.denom d then pos_amount c.amount else 0) + amount_of d cs

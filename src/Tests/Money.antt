-- ===== src/Tests/Money.antt =====
-- Amounts computed as the documentation of cosmossdk.io/math says, every denomination valid.
use mono_chain.Prelude.{◌*◌, ◌/◌, refl, true, ltb, if◌then◌else◌}
use mono_chain.Prelude.Int.{pos}
use mono_chain.Sdk.Outcome.{panicked, Result, ok, err}
use mono_chain.Sdk.Amounts.{
  MathInt, int, Dec18, dec, one, int_sum, dec_limit, coin_is_valid, sanitized, Math,
}

abbrev times : Dec18 → MathInt → Result Dec18
times (dec (pos p)) (int (pos n)) =
    if ltb (p * n) dec_limit then ok (dec (pos (p * n))) else err panicked
times _ _ = err panicked

abbrev whole : Dec18 → Result MathInt
whole (dec (pos p)) = ok (int (pos (p / one)))
whole _ = err panicked

abbrev pub plain_math : Math
plain_math = record {
  add = int_sum;
  add_lem = λ a b. refl;
  mul_int = times;
  mul_int_lem = λ p n. refl;
  truncate_int = whole;
  truncate_int_lem = λ p. refl;
  valid_denom = λ d. true;
  alyth_valid = refl;
  new_coin = λ d z.
      if coin_is_valid (λ _. true) d z then ok (record { denom = d; amount = z }) else err panicked;
  new_coin_lem = λ d z. refl;
  new_coins = λ c. sanitized (λ _. true) c c.amount;
  new_coins_lem = λ c. refl;
  validate_coin = λ c. coin_is_valid (λ _. true) c.denom c.amount;
  validate_coin_lem = λ c. refl;
  int_string = λ z. "int";
  dec_string = λ z. "dec";
  coin_string = λ c. c.denom;
}

-- ===== src/Cmd/Decimal.antt =====
-- strconv.Itoa: the decimal numerals that cmd/monod/cmd/testnet_multi_node.go writes.
use mono_chain.Prelude.{
  ℕ, zero, suc, ◌+◌, ◌*◌, ◌/◌, ◌%◌, ◌<◌, ◌-◌, ◌≡◌, true, false, [], ◌∷◌, ltb, ◌==◌, arith,
}
use mono_chain.Prelude.Int.{ℤ, pos, negsuc}
use mono_chain.Cmd.Text.{Text}

-- Each round writes the last digit in front of the digits behind it.
unfoldable pub digits_on : (fuel n : ℕ) → Text → Text
digits_on zero n out = out
digits_on (suc fuel) n out = elim (ltb n 10) [
  | true ↦ (48 + n) ∷ out
  | false ↦ digits_on fuel (n / 10) ((48 + n % 10) ∷ out)
]

unfoldable pub itoa : ℤ → Text
unfolding digits_on
itoa (pos n) = digits_on (suc n) n []
itoa (negsuc n) = 45 ∷ digits_on (suc (suc n)) (suc n) []

-- The number behind the last colon of an address.
unfoldable pub port_from : ℕ → Text → ℕ
port_from acc [] = acc
port_from acc (c ∷ cs) = elim (c == 58) [
  | true ↦ port_from 0 cs
  | false ↦ port_from (acc * 10 + (c - 48)) cs
]

port_from-digits_on :
    (fuel n : ℕ) (out : Text) → n < fuel → port_from 0 (digits_on fuel n out) ≡ port_from n out
unfolding digits_on port_from
port_from-digits_on zero n out h = absurd (omega arith)
port_from-digits_on (suc fuel) n out h =
    ground (arith, port_from-digits_on fuel (n / 10) ((48 + n % 10) ∷ out))

-- A port is read back from its numeral.
pub port-itoa : (n : ℕ) → port_from 0 (itoa (pos n)) ≡ n
unfolding itoa port_from
port-itoa n = port_from-digits_on (suc n) n [] (omega arith)

-- ===== src/Cmd/Text.antt =====
-- Texts of the command line as lists of code points, and what strings and math/big do with them.
use Prim.Native.Char.{code}
use mono_chain.Prelude.{
  String, ℕ, ◌+◌, ◌-◌, ◌*◌, Bool, true, ◌&&◌, ◌||◌, List, [], ◌∷◌, ltb, leb, ◌==◌, if◌then◌else◌,
}

abbrev pub Text : Type 0
Text = List ℕ

-- The code points of a text that the source writes out.
abbrev pub codes : String → Text
codes String.[] = []
codes (String.◌∷◌ c s) = code c ∷ codes s

-- The bytes of a code point in UTF-8.
abbrev pub rune_length : ℕ → ℕ
rune_length c = if ltb c 0x80 then 1 else if ltb c 0x800 then 2 else if ltb c 0x10000 then 3 else 4

-- `len` of a string
unfoldable pub byte_length : Text → ℕ
byte_length [] = 0
byte_length (c ∷ cs) = rune_length c + byte_length cs

-- `unicode.IsSpace`
unfoldable pub is_space : ℕ → Bool
is_space c =
    (leb 9 c && leb c 13)
    || (c == 0x20)
    || (c == 0x85)
    || (c == 0xa0)
    || (c == 0x1680)
    || (leb 0x2000 c && leb c 0x200a)
    || (c == 0x2028)
    || (c == 0x2029)
    || (c == 0x202f)
    || (c == 0x205f)
    || (c == 0x3000)

unfoldable pub trim_left : Text → Text
trim_left [] = []
trim_left (c ∷ cs) = let rest = trim_left cs in if is_space c then rest else c ∷ cs

-- `c` before a text that is trimmed on its right.
abbrev pub before_trimmed : ℕ → Text → Text
before_trimmed c [] = if is_space c then [] else c ∷ []
before_trimmed c (d ∷ ds) = c ∷ d ∷ ds

unfoldable pub trim_right : Text → Text
trim_right [] = []
trim_right (c ∷ cs) = before_trimmed c (trim_right cs)

-- `strings.TrimSpace`
abbrev pub trim_space : Text → Text
trim_space t = trim_right (trim_left t)

abbrev pub is_lower : ℕ → Bool
is_lower c = leb 97 c && leb c 122

abbrev pub is_digit : ℕ → Bool
is_digit c = leb 48 c && leb c 57

unfoldable pub value_from : ℕ → Text → ℕ
value_from acc [] = acc
value_from acc (d ∷ ds) = value_from (acc * 10 + (d - 48)) ds

-- The number that a text of decimal digits writes.
abbrev pub decimal_value : Text → ℕ
decimal_value ds = value_from 0 ds

unfoldable pub all_digits : Text → Bool
all_digits [] = true
all_digits (d ∷ ds) = is_digit d && all_digits ds

-- ===== src/Cmd/ChainId.antt =====
-- cmd/monod/cmd/chain_id.go: identifiers such as `mono_6940-1`, and the EIP-155 number in them.
pub mod Grammar
pub mod Parse
use mono_chain.Prelude.{
  ℕ, Bool, true, false, not, ◌&&◌, List, [], ◌∷◌, Option, none, some, ltb, leb, ◌==◌, if◌then◌else◌,
}
use mono_chain.Sdk.Outcome.{
  Error, cmd, invalid_chain_id, library, Result, ok, err, Action, pure, fail, ◌>>=◌, ◌>>◌,
}
use mono_chain.Cmd.Text.{
  Text, byte_length, trim_space, is_lower, is_digit, decimal_value, all_digits,
}

-- The longest prefix of characters in a class, and what follows it.
unfoldable pub prefix : (ℕ → Bool) → Text → Text
prefix p [] = []
prefix p (c ∷ cs) = let rest = prefix p cs in if p c then c ∷ rest else []

unfoldable pub after_prefix : (ℕ → Bool) → Text → Text
after_prefix p [] = []
after_prefix p (c ∷ cs) = let rest = after_prefix p cs in if p c then rest else c ∷ cs

-- `[a-z]{1,}`
abbrev pub is_name : Text → Bool
is_name [] = false
is_name (c ∷ cs) = true

-- `[1-9][0-9]*`, of a text of digits
abbrev pub is_number : Text → Bool
is_number [] = false
is_number (c ∷ cs) = not (c == 48)

no_match : {A : Type 0} → Action Text A
no_match = fail (library "no match")

-- A group of the regular expression: the characters of a class up to the first other one. No
-- group is followed by a character of its class, so the longest match is the only one.
unfoldable pub group : (ℕ → Bool) → (Text → Bool) → Action Text Text
unfolding prefix after_prefix
group p accepts t =
    if accepts (prefix p t)
    then (ok (prefix p t), after_prefix p t)
    else (err (library "no match"), t)

unfoldable pub separator : ℕ → Action Text (Unit {0})
separator c [] = (err (library "no match"), [])
separator c (d ∷ ds) = (if d == c then ok tt else err (library "no match"), ds)

unfoldable pub at_end : Action Text (Unit {0})
at_end [] = (ok tt, [])
at_end (c ∷ cs) = (err (library "no match"), c ∷ cs)

-- The regular expression `evmosChainID`: its three groups.
unfoldable pub evmos_chain_id : Action Text (Text × Text × Text)
evmos_chain_id = do
  name ← group is_lower is_name
  separator 95
  eip155 ← group is_digit is_number
  separator 45
  epoch ← group is_digit is_number
  at_end
  pure (name, eip155, epoch)

-- `IsValidChainID`
unfoldable pub is_valid_chain_id : Text → Bool
is_valid_chain_id chain_id =
    if ltb 48 (byte_length chain_id)
    then false
    else elim (evmos_chain_id chain_id).0 [ ok groups ↦ true | err e ↦ false ]

-- `new(big.Int).SetString(s, 10)`, of a text without a sign
abbrev pub set_string : Text → Option ℕ
set_string [] = none
set_string (d ∷ ds) = if all_digits (d ∷ ds) then some (decimal_value (d ∷ ds)) else none

-- What `ParseChainID` makes of the groups.
abbrev pub eip155_number : Result (Text × Text × Text) → Result ℕ
eip155_number (err e) = err (cmd invalid_chain_id)
eip155_number (ok (name, eip155, epoch)) = elim (set_string eip155) [
  | none ↦ err (cmd invalid_chain_id)
  | some n ↦ ok n
]

-- `ParseChainID`
unfoldable pub parse_chain_id : Text → Result ℕ
parse_chain_id chain_id =
    if ltb 48 (byte_length (trim_space chain_id))
    then err (cmd invalid_chain_id)
    else eip155_number (evmos_chain_id (trim_space chain_id)).0

-- ===== src/Cmd/ChainId/Parse.antt =====
-- `ParseChainID` and `IsValidChainID` against the form of an identifier.
use mono_chain.Prelude.{
  ℕ, ◌≤◌, ◌≡◌, refl, ap, ◌∙◌, ◌↔◌, ◌⊎◌, true, false, [], ◌∷◌, Bool-cases, ltb, arith, inl, inr,
}
use mono_chain.Sdk.Outcome.{Result-cases, ok, err, cmd, invalid_chain_id, Ensures-ok}
use mono_chain.Cmd.Text.{Text, byte_length, trim_space, is_digit, decimal_value, all_digits}
use mono_chain.Cmd.ChainId.{
  is_number, evmos_chain_id, is_valid_chain_id, set_string, eip155_number, parse_chain_id,
}
use mono_chain.Cmd.ChainId.Grammar.{In, IsChainId, chain_id-Ensures, chain_id_matches}

all_digits-In : (ds : Text) → In is_digit ds → all_digits ds ≡ true
unfolding all_digits
all_digits-In [] i = refl
all_digits-In (d ∷ ds) (here, i) = rw (here, all_digits-In ds i)

read_number :
    (name eip155 epoch : Text)
    → is_number eip155 ≡ true
    → In is_digit eip155
    → eip155_number (ok (name, eip155, epoch)) ≡ ok (decimal_value eip155)
read_number name [] epoch e i = absurd (ground arith)
read_number name (d ∷ ds) epoch e i = rw (eip155_number, set_string, all_digits-In (d ∷ ds) i)

number_of :
    (u name eip155 epoch : Text) (n : ℕ)
    → (evmos_chain_id u).0 ≡ ok (name, eip155, epoch)
    → byte_length u ≤ 48
    → eip155_number (ok (name, eip155, epoch)) ≡ ok n
    → IsChainId u n
number_of u name eip155 epoch n matched short e =
    let (parts, named, lower, number, digits, epoch_number, epoch_digits) =
      Ensures-ok _ _ (chain_id-Ensures u) matched in
    let read : eip155_number (ok (name, eip155, epoch)) ≡ ok (decimal_value eip155) =
      read_number name eip155 epoch number digits in
    record {
      name = name;
      eip155 = eip155;
      epoch = epoch;
      parts = parts;
      named = named;
      lower = lower;
      number = number;
      digits = digits;
      epoch_number = epoch_number;
      epoch_digits = epoch_digits;
      short = short;
      value = cc;
    }

parse-IsChainId : (t : Text) (n : ℕ) → parse_chain_id t ≡ ok n → IsChainId (trim_space t) n
unfolding parse_chain_id
parse-IsChainId t n h = elim (Bool-cases (ltb 48 (byte_length (trim_space t)))) [
  | inl long ↦ absurd (cc (rw long at h))
  | inr short ↦ elim (Result-cases (evmos_chain_id (trim_space t)).0) [
    | inr (e, refused) ↦ absurd (cc (rw (short, refused) at h))
    | inl ((name, eip155, epoch), matched) ↦
        number_of (trim_space t) name eip155 epoch n matched (ground arith)
          (rw (short, matched) at h)
  ]
]

IsChainId-matches :
    (u : Text) (n : ℕ)
    → (i : IsChainId u n)
    → (ltb 48 (byte_length u) ≡ false) × ((evmos_chain_id u).0 ≡ ok (i.name, i.eip155, i.epoch))
IsChainId-matches u n i = (
  (let short = i.short in ground arith),
  rw i.parts (
      ap (λ r. r.0)
        (chain_id_matches i.name i.eip155 i.epoch i.named i.lower i.number i.digits i.epoch_number
          i.epoch_digits)),
)

IsChainId-parse : (t : Text) (n : ℕ) → IsChainId (trim_space t) n → parse_chain_id t ≡ ok n
unfolding parse_chain_id
IsChainId-parse t n i =
    let (short, matched) = IsChainId-matches (trim_space t) n i in
    rw (short, matched) (read_number i.name i.eip155 i.epoch i.number i.digits ∙ ap ok i.value)

-- `ParseChainID` answers the number `n` exactly where the text without the space around it is an
-- identifier whose EIP-155 number is `n`.
pub parse_chain_id_iff : (t : Text) (n : ℕ) → (parse_chain_id t ≡ ok n) ↔ IsChainId (trim_space t) n
parse_chain_id_iff t n = (parse-IsChainId t n, IsChainId-parse t n)

-- Whatever `ParseChainID` refuses gets ErrInvalidChainID.
pub parse_chain_id_refused :
    (t : Text)
    → ((n : ℕ) × IsChainId (trim_space t) n) ⊎ (parse_chain_id t ≡ err (cmd invalid_chain_id))
unfolding parse_chain_id
parse_chain_id_refused t = elim (Bool-cases (ltb 48 (byte_length (trim_space t)))) [
  | inl long ↦ inr (rw long)
  | inr short ↦ elim (Result-cases (evmos_chain_id (trim_space t)).0) [
    | inr (e, refused) ↦ inr (rw (short, refused))
    | inl ((name, eip155, epoch), matched) ↦
        let (_, _, _, number, digits, _, _) =
          Ensures-ok _ _ (chain_id-Ensures (trim_space t)) matched in
        inl (
          decimal_value eip155,
          number_of (trim_space t) name eip155 epoch _ matched (ground arith)
              (read_number name eip155 epoch number digits),
        )
  ]
]

valid-IsChainId : (t : Text) → is_valid_chain_id t ≡ true → (n : ℕ) × IsChainId t n
unfolding is_valid_chain_id
valid-IsChainId t h = elim (Bool-cases (ltb 48 (byte_length t))) [
  | inl long ↦ absurd (cc (rw long at h))
  | inr short ↦ elim (Result-cases (evmos_chain_id t).0) [
    | inr (e, refused) ↦ absurd (cc (rw (short, refused) at h))
    | inl ((name, eip155, epoch), matched) ↦
        let (_, _, _, number, digits, _, _) = Ensures-ok _ _ (chain_id-Ensures t) matched in
        (
          decimal_value eip155,
          number_of t name eip155 epoch _ matched (ground arith)
              (read_number name eip155 epoch number digits),
        )
  ]
]

-- `IsValidChainID` accepts exactly the identifiers, without space around them.
pub is_valid_chain_id_iff : (t : Text) → (is_valid_chain_id t ≡ true) ↔ ((n : ℕ) × IsChainId t n)
unfolding is_valid_chain_id
is_valid_chain_id_iff t = (
  valid-IsChainId t,
  λ (n, i). let (short, matched) = IsChainId-matches t n i in rw (short, matched),
)

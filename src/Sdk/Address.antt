-- ===== src/Sdk/Address.antt =====
-- Addresses are byte strings; `address.Codec` turns them into text and back.
use mono_chain.Prelude.{ℕ, String, List}
use mono_chain.Sdk.Outcome.{Result}

abbrev pub Address : Type 0
Address = List ℕ

pub record Codec : Type 0 where
  pub string_to_bytes : String → Result Address
  pub bytes_to_string : Address → Result String

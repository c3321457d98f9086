-- ===== src/Sdk/Json.antt =====
-- codec.JSONCodec for one type: what is written is read back as `normal` of the value.
use mono_chain.Prelude.{◌≡◌}
use mono_chain.Sdk.Outcome.{Result, ok}

pub record JsonCodec (A : Type 0) (normal : A → A) : Type 1 where
  pub Raw : Type 0
  pub marshal : A → Result Raw
  pub unmarshal : Raw → Result A
  pub unmarshal-marshal : (a : A) (raw : Raw) → marshal a ≡ ok raw → unmarshal raw ≡ ok (normal a)

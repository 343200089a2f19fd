-- ===== src/Acn/Codec.antt =====
-- `proto.Marshal` and `proto.Unmarshal`, which are not part of the repository.
use open_acn.Base.{String, ◌≡◌, Except, done}
use open_acn.Wire.Word.{Bytes}

-- The protobuf runtime on one message type. `round_trip` is what it documents of a message that
-- can be encoded.
pub record Codec (M : Type 0) : Type 0 where
  pub marshal : M → Except Bytes
  pub unmarshal : Bytes → Except M
  -- the message as `%s` prints it
  pub text : M → String
  pub round_trip : (m : M) (b : Bytes) → marshal m ≡ done b → unmarshal b ≡ done m

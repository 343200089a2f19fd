-- ===== src/Acn/Message.antt =====
-- The Go types that protocols/acn/v1_0_0/acn.proto and aea/envelope.proto generate. A pointer to a
-- message is an Option; the unexported fields of the protobuf runtime are left out.
use Prim.Native.String.{◌++◌ as str_append}
use open_acn.Base.{String, Bool, true, false, Option, some, List, [], ◌∷◌}
use open_acn.Wire.Word.{Bytes}

-- `AcnMessage_StatusBody_StatusCodeEnum`. A proto3 enum is open: a number that has no name is
-- kept, as its decimal text.
pub data StatusCode : Type 0 where
  success : StatusCode
  error_unsupported_version : StatusCode
  error_unexpected_payload : StatusCode
  error_generic : StatusCode
  error_decode : StatusCode
  error_wrong_agent_address : StatusCode
  error_wrong_public_key : StatusCode
  error_invalid_proof : StatusCode
  error_unsupported_ledger : StatusCode
  error_unknown_agent_address : StatusCode
  error_agent_not_ready : StatusCode
  unrecognized : String → StatusCode

-- `code == acn.SUCCESS`
abbrev pub is_success : StatusCode → Bool
is_success success = true
is_success _ = false

-- `code.String()`
abbrev pub code_name : StatusCode → String
code_name success = "SUCCESS"
code_name error_unsupported_version = "ERROR_UNSUPPORTED_VERSION"
code_name error_unexpected_payload = "ERROR_UNEXPECTED_PAYLOAD"
code_name error_generic = "ERROR_GENERIC"
code_name error_decode = "ERROR_DECODE"
code_name error_wrong_agent_address = "ERROR_WRONG_AGENT_ADDRESS"
code_name error_wrong_public_key = "ERROR_WRONG_PUBLIC_KEY"
code_name error_invalid_proof = "ERROR_INVALID_PROOF"
code_name error_unsupported_ledger = "ERROR_UNSUPPORTED_LEDGER"
code_name error_unknown_agent_address = "ERROR_UNKNOWN_AGENT_ADDRESS"
code_name error_agent_not_ready = "ERROR_AGENT_NOT_READY"
code_name (unrecognized n) = n

-- The code as `%d` prints it.
abbrev pub code_number : StatusCode → String
code_number success = "0"
code_number error_unsupported_version = "1"
code_number error_unexpected_payload = "2"
code_number error_generic = "3"
code_number error_decode = "4"
code_number error_wrong_agent_address = "10"
code_number error_wrong_public_key = "11"
code_number error_invalid_proof = "12"
code_number error_unsupported_ledger = "13"
code_number error_unknown_agent_address = "20"
code_number error_agent_not_ready = "21"
code_number (unrecognized n) = n

pub record AgentRecord : Type 0 where
  pub service_id : String
  pub ledger_id : String
  pub address : String
  pub public_key : String
  pub peer_public_key : String
  pub signature : String
  pub not_before : String
  pub not_after : String

pub record StatusBody : Type 0 where
  pub code : StatusCode
  pub msgs : List String

pub record EnvelopePerformative : Type 0 where
  pub envelope : Bytes
  pub agent_record : Option AgentRecord

-- The oneof. `register`, `lookup_response` and `status` hold a pointer that may be nil.
pub data Performative : Type 0 where
  aea_envelope : EnvelopePerformative → Performative
  lookup_request : String → Performative
  lookup_response : Option AgentRecord → Performative
  register : Option AgentRecord → Performative
  status : Option StatusBody → Performative

pub record AcnMessage : Type 0 where
  pub performative : Option Performative

abbrev pub message : Performative → AcnMessage
message p = record { performative = some p }

-- aea/envelope.pb.go
pub record Envelope : Type 0 where
  pub to : String
  pub sender : String
  pub protocol_id : String
  pub message_bytes : Bytes
  pub uri : String

infixl 65 ◌+ˢ◌
-- Go's `+` on strings.
abbrev pub ◌+ˢ◌ : String → String → String
s +ˢ t = str_append s t

-- `strings.Join(msgs, sep)`
abbrev pub join : String → List String → String
join sep [] = ""
join sep (s ∷ []) = s
join sep (s ∷ t ∷ rest) = s +ˢ sep +ˢ join sep (t ∷ rest)

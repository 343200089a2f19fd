-- ===== src/Por/Check.antt =====
-- `IsValidProofOfRepresentation` of dht/dhtnode/utils.go.
pub mod Laws
pub mod Panics
use open_acn.Base.{
  String, Bool, true, false, not, ◌||◌, Option, none, some, List, [], ◌∷◌, Err, msg, error_text,
  Result, ok, err, panic, if◌then◌else◌, ◌=ˢ◌,
}
use open_acn.Base.Pure.{◌>>=◌}
use open_acn.Acn.Message.{
  is_success, StatusCode, success, error_wrong_agent_address, error_wrong_public_key,
  error_invalid_proof, error_unsupported_ledger, AgentRecord, StatusBody, ◌+ˢ◌, join,
}
use open_acn.Por.Crypto.{Crypto}
use open_acn.Por.Ledger.{agent_address_from_public_key, verify_ledger_signature}

abbrev pub supported_ledgers : List String
supported_ledgers = "fetchai" ∷ "cosmos" ∷ "ethereum" ∷ []

-- The loop over the supported ledgers.
abbrev pub is_among : String → List String → Bool
is_among id [] = false
is_among id (supported ∷ rest) = id =ˢ supported || is_among id rest

-- The status and the error, which are returned together.
abbrev pub Verdict : Type 0
Verdict = StatusBody × Option Err

abbrev pub refused : StatusCode → List String → Err → Result Verdict
refused code msgs e = ok (record { code = code; msgs = msgs }, some e)

abbrev refused_text : StatusCode → String → Result Verdict
refused_text code text = refused code (text ∷ []) (msg text)

abbrev pub accepted : Verdict
accepted = (record { code = success; msgs = [] }, none)

-- `err == nil && status.Code == acn.SUCCESS`
abbrev pub is_verified : Verdict → Bool
is_verified (status, none) = is_success status.code
is_verified (status, some e) = false

module _ (c : Crypto) (r : AgentRecord) where
  abbrev pub signature_verdict : Result Bool → Result Verdict
  signature_verdict (ok true) = ok accepted
  signature_verdict (ok false) = refused error_invalid_proof [] (msg "signature is not valid")
  signature_verdict (err e) = refused error_invalid_proof [] e
  signature_verdict panic = panic

  abbrev pub check_signature : Result Verdict
  check_signature = signature_verdict (
      verify_ledger_signature c r.ledger_id (c.to_bytes r.peer_public_key) r.signature r.public_key)

  abbrev pub address_verdict : Result String → Result Verdict
  address_verdict (ok addr) =
      if addr =ˢ r.address
      then check_signature
      else refused error_wrong_agent_address [] (msg "agent address and public key don't match")
  address_verdict (err e) = refused error_wrong_agent_address [] e
  address_verdict panic = panic

  unfoldable pub is_valid_proof_of_representation : String → String → Result Verdict
  is_valid_proof_of_representation agent_address representative_peer_pub_key =
      if not (r.address =ˢ agent_address)
      then refused_text error_wrong_agent_address
          ("Wrong agent address, expected " +ˢ agent_address)
      else if not (is_among r.ledger_id supported_ledgers)
      then refused_text error_unsupported_ledger
          ("Unsupported ledger " +ˢ r.ledger_id +ˢ ", expected " +ˢ join "," supported_ledgers)
      else if not (r.peer_public_key =ˢ representative_peer_pub_key)
      then refused_text error_wrong_public_key
          ("Wrong peer public key, expected " +ˢ representative_peer_pub_key)
      else address_verdict (agent_address_from_public_key c r.ledger_id r.public_key)

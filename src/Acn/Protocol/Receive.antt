-- ===== src/Acn/Protocol/Receive.antt =====
-- The readers of acn/utils.go, and the exchanges that send and then read.
use open_acn.Base.{
  String, Option, none, some, [], ◌∷◌, Except, done, fail, Err, msg, error_text, Exec, pure, raise,
  lift, deref, ◌>>=◌, ◌>>◌, if◌then◌else◌, ◌=ˢ◌,
}
use open_acn.Wire.Word.{Bytes}
use open_acn.Wire.Pipe.{Pipe}
use open_acn.Acn.Message.{
  StatusCode, error_unexpected_payload, error_decode, is_success, code_name, code_number,
  AgentRecord, StatusBody, EnvelopePerformative, Performative, aea_envelope, lookup_request,
  lookup_response, register, status, AcnMessage, join, ◌+ˢ◌,
}
use open_acn.Acn.Codec.{Codec}
use open_acn.Acn.Protocol.{AcnError, ignore, Received, arrived, timed_out}
use open_acn.Acn.Protocol.Send.{
  send_message, send_acn_error, send_lookup_request, send_envelope_message,
}

-- The results of `DecodeAcnMessage`.
pub record Decoded : Type 0 where
  pub msg_type : String
  pub envelope : Option EnvelopePerformative
  pub status_body : Option StatusBody
  pub acn_error : Option AcnError

abbrev decoding_failed : StatusCode → Err → Decoded
decoding_failed code e = record {
  msg_type = "";
  envelope = none;
  status_body = none;
  acn_error = some (record { error_code = code; cause = e });
}

abbrev decoded_payload : String → Option Performative → Decoded
decoded_payload text (some (aea_envelope pl)) = record {
  msg_type = "aea_envelope";
  envelope = some pl;
  status_body = none;
  acn_error = none;
}
decoded_payload text (some (status body)) = record {
  msg_type = "status";
  envelope = none;
  status_body = body;
  acn_error = none;
}
decoded_payload text _ =
    decoding_failed error_unexpected_payload (msg ("unexpected ACN Message: " +ˢ text))

module _ {S : Type 0} where
  abbrev pub wait_result : Received → Exec S (Option StatusBody)
  wait_result (arrived m) = pure m
  wait_result timed_out = raise (msg "ACN send acknowledge timeout")

  -- `WaitForStatus`; the select is a parameter.
  unfoldable pub wait_for_status : Exec S Received → Exec S (Option StatusBody)
  wait_for_status select = do m ← select; wait_result m

module _ (codec : Codec AcnMessage) where
  abbrev pub decoded_message : Except AcnMessage → Decoded
  decoded_message (fail e) = decoding_failed error_decode e
  decoded_message (done response) = decoded_payload (codec.text response) response.performative

  unfoldable pub decode_acn_message : Bytes → Decoded
  decode_acn_message buf = decoded_message (codec.unmarshal buf)

  module _ {S : Type 0} (pipe : Pipe S) where
    -- The reply to bytes that do not decode, or to a message of another kind; the error is returned.
    abbrev pub refuse : {A : Type 0} → Err → StatusCode → Exec S A
    refuse e code = ignore (send_acn_error codec pipe (error_text e) (code ∷ [])) >> raise e

    abbrev pub registration_payload : Option Performative → Exec S (Option AgentRecord)
    registration_payload (some (register agent_record)) = pure agent_record
    registration_payload _ = refuse (msg "Unexpected payload") error_unexpected_payload

    abbrev pub decoded_registration : Except AcnMessage → Exec S (Option AgentRecord)
    decoded_registration (fail e) = refuse e error_decode
    decoded_registration (done m) = registration_payload m.performative

    -- The record of the performative that is returned.
    unfoldable pub read_agent_registration_message : Exec S (Option AgentRecord)
    read_agent_registration_message = do buf ← pipe.read; decoded_registration (codec.unmarshal buf)

    abbrev pub lookup_request_payload : Option Performative → Exec S String
    lookup_request_payload (some (lookup_request address)) = pure address
    lookup_request_payload _ = refuse (msg "Unexpected payload") error_unexpected_payload

    abbrev pub decoded_lookup_request : Except AcnMessage → Exec S String
    decoded_lookup_request (fail e) = refuse e error_decode
    decoded_lookup_request (done m) = lookup_request_payload m.performative

    unfoldable pub read_lookup_request : Exec S String
    read_lookup_request = do buf ← pipe.read; decoded_lookup_request (codec.unmarshal buf)

    -- `status.Body.Code.String() + " : " + …`: a status with no body panics
    abbrev pub lookup_response_payload : Option Performative → Exec S (Option AgentRecord)
    lookup_response_payload (some (lookup_response agent_record)) = pure agent_record
    lookup_response_payload (some (status body)) = do
      b ← deref body
      raise (msg ("Failed agent lookup response " +ˢ code_name b.code +ˢ " : " +ˢ join ":" b.msgs))
    lookup_response_payload _ = raise (msg "Unexpected Acn Message")

    unfoldable pub read_lookup_response : Exec S (Option AgentRecord)
    read_lookup_response = do
      buf ← pipe.read
      m ← lift (codec.unmarshal buf)
      lookup_response_payload m.performative

    unfoldable pub perform_address_lookup : String → Exec S (Option AgentRecord)
    unfolding read_lookup_response send_lookup_request
    perform_address_lookup address = do send_lookup_request codec pipe address; read_lookup_response

    abbrev pub acn_status_payload : Option Performative → Exec S (Option StatusBody)
    acn_status_payload (some (status body)) = pure body
    acn_status_payload _ = raise (msg "Unexpected Acn Message")

    unfoldable pub read_acn_status : Exec S (Option StatusBody)
    read_acn_status = do
      buf ← pipe.read
      m ← lift (codec.unmarshal buf)
      acn_status_payload m.performative

    abbrev pub registration_status : StatusBody → Exec S (Unit {0})
    registration_status b =
        if is_success b.code
        then pure tt
        else raise (msg ("Registration failed: " +ˢ join ":" b.msgs))

    unfoldable pub send_agent_register_message : Option AgentRecord → Exec S (Unit {0})
    unfolding read_acn_status send_message
    send_agent_register_message agent_record = do
      send_message codec pipe (register agent_record)
      body ← read_acn_status
      b ← deref body
      registration_status b

    abbrev pub received_envelope : Decoded → Exec S EnvelopePerformative
    received_envelope d = elim d.acn_error [
      | some e ↦
          ignore (send_acn_error codec pipe (error_text e.cause) (e.error_code ∷ []))
          >> raise e.cause
      | none ↦
          if d.msg_type =ˢ "aea_envelope"
          then deref d.envelope
          else raise (msg "unexpected payload for acn message")
    ]

    unfoldable pub read_envelope_message : Exec S EnvelopePerformative
    unfolding decode_acn_message
    read_envelope_message = do buf ← pipe.read; received_envelope (decode_acn_message buf)

    abbrev pub confirmation : StatusBody → Exec S (Unit {0})
    confirmation b =
        if is_success b.code
        then pure tt
        else raise (
            msg (
              "send envelope: acn confirmation status is not Status Success: "
              +ˢ code_number b.code))

    unfoldable pub send_envelope_message_and_wait_for_status :
        Bytes → Exec S Received → Exec S (Unit {0})
    unfolding send_envelope_message wait_for_status
    send_envelope_message_and_wait_for_status envelope_bytes select = do
      send_envelope_message codec pipe envelope_bytes none
      body ← wait_for_status select
      b ← deref body
      confirmation b

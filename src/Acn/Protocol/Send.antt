-- ===== src/Acn/Protocol/Send.antt =====
-- The senders of acn/utils.go. Each encodes one message and writes it on the pipe.
use open_acn.Base.{String, Option, some, List, [], ◌∷◌, Except, Exec, lift, ◌>>=◌}
use open_acn.Wire.Word.{Bytes}
use open_acn.Wire.Pipe.{Pipe}
use open_acn.Acn.Message.{
  StatusCode, success, error_generic, AgentRecord, Performative, aea_envelope, lookup_request,
  lookup_response, status, AcnMessage, message,
}
use open_acn.Acn.Codec.{Codec}

-- The argument `err_codes ...Status_ErrCode`
abbrev pub first_code : List StatusCode → StatusCode
first_code [] = error_generic
first_code (code ∷ codes) = code

abbrev pub success_status : Performative
success_status = status (some (record { code = success; msgs = [] }))

abbrev pub error_status : String → StatusCode → Performative
error_status error_msg code = status (some (record { code = code; msgs = error_msg ∷ [] }))

module _ (codec : Codec AcnMessage) where
  -- `EncodeAcnEnvelope`
  unfoldable pub encode_acn_envelope : Bytes → Option AgentRecord → Except Bytes
  encode_acn_envelope envelope_bytes agent_record =
      codec.marshal
        (message (aea_envelope (record { envelope = envelope_bytes; agent_record = agent_record })))

  module _ {S : Type 0} (pipe : Pipe S) where
    -- Encode, then write: the body that the senders share.
    unfoldable pub send_message : Performative → Exec S (Unit {0})
    send_message p = do buf ← lift (codec.marshal (message p)); pipe.write buf

    unfoldable pub send_acn_success : Exec S (Unit {0})
    unfolding send_message
    send_acn_success = send_message success_status

    unfoldable pub send_acn_error : String → List StatusCode → Exec S (Unit {0})
    unfolding send_message
    send_acn_error error_msg err_codes =
        send_message (error_status error_msg (first_code err_codes))

    unfoldable pub send_lookup_request : String → Exec S (Unit {0})
    unfolding send_message
    send_lookup_request address = send_message (lookup_request address)

    unfoldable pub send_lookup_response : Option AgentRecord → Exec S (Unit {0})
    unfolding send_message
    send_lookup_response agent_record = send_message (lookup_response agent_record)

    unfoldable pub send_envelope_message : Bytes → Option AgentRecord → Exec S (Unit {0})
    unfolding encode_acn_envelope
    send_envelope_message envelope_bytes agent_record = do
      buf ← lift (encode_acn_envelope envelope_bytes agent_record)
      pipe.write buf

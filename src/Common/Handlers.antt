-- ===== src/Common/Handlers.antt =====
-- `HandleAeaEnvelopeStream` and `HandleAeaAddressStream` of dht/common/handlers.go.
pub mod Laws
pub mod Exchange
use open_acn.Base.{
  String, Option, none, some, [], ◌∷◌, Except, done, fail, Err, msg, error_text, Exec, pure, raise,
  crash, deref, attempt, from_result, ◌>>=◌, ◌>>◌, if◌then◌else◌,
}
use open_acn.Wire.Word.{Bytes}
use open_acn.Acn.Message.{
  AgentRecord, StatusBody, Envelope, EnvelopePerformative, AcnMessage, error_decode, code_name,
  join, ◌+ˢ◌,
}
use open_acn.Acn.Codec.{Codec}
use open_acn.Acn.Protocol.{AcnError, ignore}
use open_acn.Acn.Protocol.Send.{send_acn_error, send_acn_success, send_lookup_response}
use open_acn.Acn.Protocol.Receive.{read_envelope_message, read_lookup_request}
use open_acn.Por.Crypto.{Crypto}
use open_acn.Por.Check.{Verdict, is_verified, is_valid_proof_of_representation}
use open_acn.Common.Line.{Line, on_node, line_pipe, end_line, closed, reset}

-- `DHTHandler`: the two callbacks, of which the second returns a record and an error.
pub record DhtHandler (S : Type 0) : Type 0 where
  pub handle_aea_envelope : Envelope → Exec S (Option AcnError)
  pub handle_aea_address_request : String → Exec S (Option AgentRecord × Option AcnError)

-- The error of a proof that is not valid.
abbrev pub proof_error : Verdict → Err
proof_error (status, some e) = e
proof_error (status, none) = msg (code_name status.code +ˢ ":" +ˢ join ":" status.msgs)

-- The key that is checked for the peer at the other end, from what
-- `utils.FetchAIPublicKeyFromPubKey(stream.Conn().RemotePublicKey())` gives: its error is ignored, and
-- the key is then empty.
abbrev pub key_or_empty : Except String → String
key_or_empty (fail e) = ""
key_or_empty (done k) = k

module _ (crypto : Crypto) (messages : Codec AcnMessage) (envelopes : Codec Envelope)
    {S : Type 0} where
  abbrev pub checked_envelope : Envelope → Verdict → Exec (Line × S) Envelope
  checked_envelope envel v =
      if is_verified v
      then pure envel
      else (ignore
            (send_acn_error messages line_pipe "incoming envelope PoR is not valid" (v.0.code ∷ []))
          >> raise (proof_error v))

  abbrev pub decoded_envelope :
      Except String → EnvelopePerformative → Except Envelope → Exec (Line × S) Envelope
  decoded_envelope remote_pubkey pl (fail e) =
      ignore (
        send_acn_error messages line_pipe "while deserializing acn aea envelope message"
          (error_decode ∷ []))
      >> raise e
  decoded_envelope remote_pubkey pl (done envel) = do
    r ← deref pl.agent_record
    v ←
        from_result
          (is_valid_proof_of_representation crypto r r.address (key_or_empty remote_pubkey))
    checked_envelope envel v

  -- `remote_pubkey` is the conversion of the public key of the peer at the other end.
  unfoldable pub receive_envelope_from_peer : Except String → Exec (Line × S) Envelope
  receive_envelope_from_peer remote_pubkey = do
    pl ← read_envelope_message messages line_pipe
    decoded_envelope remote_pubkey pl (envelopes.unmarshal pl.envelope)

  module _ (handler : DhtHandler S) where
    abbrev pub replied : Option AcnError → Exec (Line × S) (Unit {0})
    replied (some e) =
        ignore (send_acn_error messages line_pipe (error_text e.cause) (e.error_code ∷ []))
        >> end_line closed
    replied none = ignore (send_acn_success messages line_pipe) >> end_line closed

    abbrev pub received_from_peer : Except Envelope → Exec (Line × S) (Unit {0})
    received_from_peer (fail e) = end_line closed
    received_from_peer (done envel) = do
      acn_error ← on_node (handler.handle_aea_envelope envel)
      replied acn_error

    unfoldable pub handle_aea_envelope_stream : Except String → Exec (Line × S) (Unit {0})
    handle_aea_envelope_stream remote_pubkey = do
      r ← attempt (receive_envelope_from_peer remote_pubkey)
      received_from_peer r

    abbrev pub responded : Except (Unit {0}) → Exec (Line × S) (Unit {0})
    responded (fail e) = end_line reset
    responded (done _) = pure tt

    -- With neither a record nor an error, the log call reads through a nil error.
    abbrev pub answered : Option AgentRecord × Option AcnError → Exec (Line × S) (Unit {0})
    answered (r, some e) =
        ignore (send_acn_error messages line_pipe (error_text e.cause) (e.error_code ∷ []))
        >> end_line closed
    answered (none, none) = crash
    answered (some r, none) = do
      x ← attempt (send_lookup_response messages line_pipe (some r))
      responded x

    abbrev pub asked : Except String → Exec (Line × S) (Unit {0})
    asked (fail e) = end_line reset
    asked (done req_address) = do
      answer ← on_node (handler.handle_aea_address_request req_address)
      answered answer

    unfoldable pub handle_aea_address_stream : Exec (Line × S) (Unit {0})
    handle_aea_address_stream = do r ← attempt (read_lookup_request messages line_pipe); asked r

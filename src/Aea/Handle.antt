-- ===== src/Aea/Handle.antt =====
-- `HandleAcnMessageFromPipe` of aea/utils.go, and `SendEnvelope` and `MakeAcnMessageFromEnvelope`
-- of aea/api.go.
pub mod Laws
pub mod Stable
use open_acn.Base.{
  String, Option, none, some, List, [], ◌∷◌, Except, done, fail, Err, msg, pipe_error, error_text,
  Exec, pure, raise, lift, deref, attempt, ◌>>=◌, ◌>>◌, Bool, true, false, if◌then◌else◌, ◌=ˢ◌,
}
use open_acn.Wire.Word.{Bytes}
use open_acn.Wire.Pipe.{Pipe}
use open_acn.Acn.Message.{error_decode, StatusBody, EnvelopePerformative, AcnMessage, Envelope}
use open_acn.Acn.Codec.{Codec}
use open_acn.Acn.Protocol.{AcnError, ignore, StatusQueue, Received}
use open_acn.Acn.Protocol.Send.{encode_acn_envelope, send_acn_error, send_acn_success}
use open_acn.Acn.Protocol.Receive.{
  Decoded, decode_acn_message, send_envelope_message_and_wait_for_status,
}

module _ (codec : Codec AcnMessage) (envelopes : Codec Envelope) where
  -- `acn.EncodeAcnEnvelope(envelope_bytes, nil)` after `proto.Marshal`
  unfoldable pub make_acn_message_from_envelope : Envelope → Except Bytes
  unfolding encode_acn_envelope
  make_acn_message_from_envelope envelope = elim (envelopes.marshal envelope) [
    | fail e ↦ fail e
    | done envelope_bytes ↦ encode_acn_envelope codec envelope_bytes none
  ]

  module _ {S : Type 0} (pipe : Pipe S) where
    unfoldable pub send_envelope : Exec S Received → Envelope → Exec S (Unit {0})
    unfolding send_envelope_message_and_wait_for_status
    send_envelope select envelope = do
      envelope_bytes ← lift (envelopes.marshal envelope)
      send_envelope_message_and_wait_for_status codec pipe envelope_bytes select

    -- `pipe.Read`, with its error wrapped in a `PipeError`.
    abbrev pub wrapped : Except Bytes → Exec S Bytes
    wrapped (done b) = pure b
    wrapped (fail e) = raise (pipe_error e)

    abbrev pub unmarshalled : Except Envelope → Exec S (Option Envelope)
    unmarshalled (fail e) =
        ignore (send_acn_error codec pipe "error on decoding envelope" (error_decode ∷ []))
        >> raise e
    unmarshalled (done envelope) = do send_acn_success codec pipe; pure (some envelope)

    module _ (queue : StatusQueue S) (counterparty_id : String) where
      -- The switch on `msg_type`.
      abbrev pub dispatch : Decoded → Exec S (Option Envelope)
      dispatch d =
          if d.msg_type =ˢ "aea_envelope"
          then (do pl ← deref d.envelope; unmarshalled (envelopes.unmarshal pl.envelope))
          else if d.msg_type =ˢ "status"
          then (do
            b ← deref d.status_body
            queue.add_acn_status_message b counterparty_id
            pure none)
          else (do
            ignore (send_acn_error codec pipe "Unsupported ACN message" [])
            raise (msg "unsupported ACN message"))

      -- An `*ACNError` that is returned as an error shows the text of its cause.
      abbrev pub handle_decoded : Decoded → Exec S (Option Envelope)
      handle_decoded d = elim d.acn_error [
        | some e ↦
            ignore (send_acn_error codec pipe (error_text e.cause) (e.error_code ∷ []))
            >> raise (msg (error_text e.cause))
        | none ↦ dispatch d
      ]

      -- `none` for a status message, which goes to the queue of the counterparty.
      unfoldable pub handle_acn_message_from_pipe : Exec S (Option Envelope)
      unfolding decode_acn_message
      handle_acn_message_from_pipe = do
        read ← attempt pipe.read
        data_read ← wrapped read
        handle_decoded (decode_acn_message codec data_read)

-- ===== src/Common/Handlers/Exchange.antt =====
-- An envelope message that one peer sends and another one receives.
use open_acn.Base.{
  ◌≡◌, ◌∙◌, ap, refl, arith, true, some, ◌++◌, ◌≤◌, length, is_empty, false, done, ok, and_then,
}
use open_acn.Base.{String, Except}
use open_acn.Wire.Word.{Bytes}
use open_acn.Wire.Conn.{Conn, arriving}
use open_acn.Wire.Frame.{max_message_size, read_bytes}
use open_acn.Wire.Frame.RoundTrip.{sent_since, read_bytes-write_bytes}
use open_acn.Wire.Pipe.{stream_pipe}
use open_acn.Acn.Message.{AgentRecord, AcnMessage, Envelope, aea_envelope, message}
use open_acn.Acn.Codec.{Codec}
use open_acn.Acn.Protocol.Send.{send_envelope_message, encode_acn_envelope}
use open_acn.Acn.Protocol.Envelopes.{read_envelope_message_iff}
use open_acn.Por.Crypto.{Crypto}
use open_acn.Por.Check.{Verdict, is_verified, is_valid_proof_of_representation}
use open_acn.Common.Line.{Line, line_pipe, put_line, open_still}
use open_acn.Common.Handlers.{key_or_empty, receive_envelope_from_peer, decoded_envelope}

-- A stream on which the handler begins.
abbrev pub arriving_line : {S : Type 0} → Conn → S → Line × S
arriving_line d s = (record { stream = some d; ending = open_still }, s)

-- The same stream, once one message was read from it.
abbrev pub after_reading : {S : Type 0} → Conn → S → Line × S
after_reading d s = (record { stream = (read_bytes (some d)).1; ending = open_still }, s)

module _ (crypto : Crypto) (messages : Codec AcnMessage) (envelopes : Codec Envelope) {S : Type 0}
    (key : Except String) (r : AgentRecord) (e : Envelope) (envelope_bytes : Bytes)
    (marshalled : envelopes.marshal e ≡ done envelope_bytes) where
  module _ (v : Verdict)
      (proof : is_valid_proof_of_representation crypto r r.address (key_or_empty key) ≡ ok v)
      (verified : is_verified v ≡ true) where
    decoded_envelope_lem :
        (t : Line × S)
        → decoded_envelope crypto messages envelopes key
            (record { envelope = envelope_bytes; agent_record = some r })
            (envelopes.unmarshal envelope_bytes)
            t
          ≡ (ok e, t)
    decoded_envelope_lem t =
        rw (envelopes.round_trip e envelope_bytes marshalled, proof, verified) refl

    -- What `SendEnvelopeMessage` writes on a stream without an error is received at the other end
    -- as the same envelope, where the record is a valid proof for the key of the sending peer, the
    -- message is not empty and at most 3 MiB, and the bytes to come there begin with what was
    -- written, however they are cut.
    pub receive_envelope_from_peer-send_envelope_message :
        (rest b : Bytes) (c c' d : Conn) (s : S)
        → messages.marshal
            (message (aea_envelope (record { envelope = envelope_bytes; agent_record = some r })))
          ≡ done b
        → is_empty b ≡ false
        → length b ≤ max_message_size
        → send_envelope_message messages stream_pipe envelope_bytes (some r) (some c)
          ≡ (ok tt, some c')
        → arriving d ≡ sent_since c c' ++ rest
        → receive_envelope_from_peer crypto messages envelopes key (arriving_line d s)
          ≡ (ok e, after_reading d s)
    unfolding receive_envelope_from_peer send_envelope_message encode_acn_envelope
    receive_envelope_from_peer-send_envelope_message rest b c c' d s encoded nonempty small sent
          joined =
        let got =
          read_bytes-write_bytes b rest c c' d nonempty small (ground (arith, encoded, sent))
            joined in
        let read =
          (read_envelope_message_iff messages line_pipe
              (record { envelope = envelope_bytes; agent_record = some r }) (arriving_line d s)
              (after_reading d s)).1
            (
              b,
              ap (λ x. put_line (arriving_line d s).0 s (x, (read_bytes (some d)).1)) got,
              messages.round_trip _ b encoded,
            ) in
        ap
          (λ x. and_then x (λ pl.
            decoded_envelope crypto messages envelopes key pl (envelopes.unmarshal pl.envelope)))
          read
        ∙ decoded_envelope_lem (after_reading d s)

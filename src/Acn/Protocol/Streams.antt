-- ===== src/Acn/Protocol/Streams.antt =====
-- Exchanges of acn/utils.go between two peers over a libp2p stream.
use open_acn.Base.{
  String, Option, some, ◌≡◌, ◌++◌, ◌≤◌, done, ok, length, is_empty, false, ap, arith,
}
use open_acn.Wire.Word.{Bytes}
use open_acn.Wire.Conn.{Conn, arriving}
use open_acn.Wire.Frame.{max_message_size, read_bytes}
use open_acn.Wire.Frame.RoundTrip.{sent_since, read_bytes-write_bytes}
use open_acn.Wire.Pipe.{stream_pipe}
use open_acn.Acn.Message.{AgentRecord, AcnMessage, Performative, lookup_request, register, message}
use open_acn.Acn.Codec.{Codec}
use open_acn.Acn.Protocol.Send.{send_message, send_lookup_request}
use open_acn.Acn.Protocol.Receive.{read_lookup_request, read_agent_registration_message}
use open_acn.Acn.Protocol.Exchange.{read_lookup_request_iff, read_agent_registration_message_iff}

module _ (codec : Codec AcnMessage) (rest b : Bytes) (c c' d : Conn) (nonempty : is_empty b ≡ false)
    (small : length b ≤ max_message_size) (joined : arriving d ≡ sent_since c c' ++ rest) where
  read_bytes-send_message :
      (p : Performative)
      → codec.marshal (message p) ≡ done b
      → send_message codec stream_pipe p (some c) ≡ (ok tt, some c')
      → read_bytes (some d) ≡ (ok b, (read_bytes (some d)).1)
  unfolding send_message
  read_bytes-send_message p encoded sent =
      ap (λ x. (x, (read_bytes (some d)).1))
        (read_bytes-write_bytes b rest c c' d nonempty small (ground (arith, encoded, sent)) joined)

  -- A lookup request that was written on a stream without an error is read as the same address
  -- at the other end, where its encoding is not empty and at most 3 MiB, and the bytes to come
  -- there begin with what was written, however they are cut.
  pub read_lookup_request-send_lookup_request :
      (address : String)
      → codec.marshal (message (lookup_request address)) ≡ done b
      → send_lookup_request codec stream_pipe address (some c) ≡ (ok tt, some c')
      → (read_lookup_request codec stream_pipe (some d)).0 ≡ ok address
  unfolding send_lookup_request
  read_lookup_request-send_lookup_request address encoded sent =
      ap (λ x. x.0)
        ((read_lookup_request_iff codec stream_pipe address (some d) (read_bytes (some d)).1).1 (
          b,
          read_bytes-send_message (lookup_request address) encoded sent,
          codec.round_trip _ b encoded,
        ))

  -- A registration message that was written on a stream without an error is read as the same
  -- record at the other end, where its encoding is not empty and at most 3 MiB, and the bytes to
  -- come there begin with what was written, however they are cut.
  read_agent_registration_message-send_message :
      (r : Option AgentRecord)
      → codec.marshal (message (register r)) ≡ done b
      → send_message codec stream_pipe (register r) (some c) ≡ (ok tt, some c')
      → (read_agent_registration_message codec stream_pipe (some d)).0 ≡ ok r
  read_agent_registration_message-send_message r encoded sent =
      ap (λ x. x.0)
        ((read_agent_registration_message_iff codec stream_pipe r (some d)
            (read_bytes (some d)).1).1
          (b, read_bytes-send_message (register r) encoded sent, codec.round_trip _ b encoded))

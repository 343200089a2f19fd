-- ===== src/Tests/AcnExamples.antt =====
-- The protocol over a stream and over a socket, with a codec that knows a few messages.
use open_acn.Base.{ℕ, ◌≡◌, ◌↔◌, [], ◌∷◌, none, some, ok, refl, arith}
use open_acn.Wire.Word.{Bytes, put_uint32}
use open_acn.Wire.Conn.{Conn, write}
use open_acn.Wire.Pipe.{Pipe, stream_pipe}
use open_acn.Wire.Frame.{write_bytes}
use open_acn.Acn.Message.{aea_envelope, status, lookup_request, register}
use open_acn.Acn.Protocol.{StatusQueue}
use open_acn.Acn.Protocol.Send.{send_message, send_lookup_request, send_acn_success}
use open_acn.Acn.Protocol.Receive.{
  read_acn_status, read_envelope_message, read_lookup_request, read_agent_registration_message,
  decode_acn_message,
}
use open_acn.Acn.Protocol.Readers.{Reads, readers_iff}
use open_acn.Acn.Protocol.Streams.{read_lookup_request-send_lookup_request}
use open_acn.Aea.Handle.{handle_acn_message_from_pipe}
use open_acn.Aea.Handle.Laws.{Acknowledged, handle_acn_message_from_pipe-Acknowledged}
use open_acn.Tests.Fixtures.{quiet, messages, envelopes, envelope_of}

-- A pipe that reads one message, and keeps what is written.
abbrev box : Pipe Bytes
box = record { read = λ s. (ok s, []); write = λ b s. (ok tt, b) }

abbrev sent : Bytes → Conn
sent b = record quiet { outgoing = b }

-- The frame of a message of one byte, in two pieces.
abbrev framed : ℕ → Conn
framed n = record quiet { incoming = (0 ∷ 0 ∷ []) ∷ (0 ∷ 1 ∷ n ∷ []) ∷ [] }

lookup_sent :
    send_lookup_request messages stream_pipe "agent" (some quiet)
    ≡ (ok tt, some (sent (0 ∷ 0 ∷ 0 ∷ 1 ∷ 3 ∷ [])))
unfolding send_lookup_request send_message write_bytes write put_uint32
lookup_sent = refl

read_lookup_request-send_lookup_request_example :
    (read_lookup_request messages stream_pipe (some (framed 3))).0 ≡ ok "agent"
read_lookup_request-send_lookup_request_example =
    read_lookup_request-send_lookup_request messages [] (3 ∷ []) quiet
      (sent (0 ∷ 0 ∷ 0 ∷ 1 ∷ 3 ∷ [])) (framed 3) refl (omega arith) refl "agent" refl lookup_sent

registration_sent :
    send_message messages stream_pipe (register none) (some quiet)
    ≡ (ok tt, some (sent (0 ∷ 0 ∷ 0 ∷ 1 ∷ 2 ∷ [])))
unfolding send_message write_bytes write put_uint32
registration_sent = refl

readers_iff_example :
    ((read_agent_registration_message messages box (3 ∷ []) ≡ (ok none, []))
      ↔ Reads messages box (register none) (3 ∷ []) [])
    × ((read_lookup_request messages box (3 ∷ []) ≡ (ok "agent", []))
        ↔ Reads messages box (lookup_request "agent") (3 ∷ []) [])
    × ((read_envelope_message messages box (3 ∷ [])
          ≡ (ok (record { envelope = []; agent_record = none }), []))
        ↔ Reads messages box
            (aea_envelope (record { envelope = []; agent_record = none }))
            (3 ∷ [])
            [])
    × ((read_acn_status messages box (3 ∷ []) ≡ (ok none, []))
        ↔ Reads messages box (status none) (3 ∷ []) [])
readers_iff_example =
    readers_iff messages box (3 ∷ []) [] none "agent"
      (record { envelope = []; agent_record = none }) none

abbrev dropping : StatusQueue Bytes
dropping = record { add_acn_status_message = λ b a s. (ok tt, s) }

envelope_handled :
    handle_acn_message_from_pipe messages envelopes box dropping "peer" (5 ∷ 7 ∷ [])
    ≡ (ok (some (envelope_of (7 ∷ []))), 4 ∷ [])
unfolding handle_acn_message_from_pipe decode_acn_message send_acn_success
envelope_handled = refl

handle_acn_message_from_pipe-Acknowledged_example :
    (b : Bytes) × (r : Bytes) × (box.read (5 ∷ 7 ∷ []) ≡ (ok b, r))
    × Acknowledged messages envelopes box
        (decode_acn_message messages b)
        (envelope_of (7 ∷ []))
        r
        (4 ∷ [])
handle_acn_message_from_pipe-Acknowledged_example =
    handle_acn_message_from_pipe-Acknowledged messages envelopes box dropping "peer" (5 ∷ 7 ∷ [])
      (4 ∷ []) (envelope_of (7 ∷ [])) envelope_handled

-- ===== src/Tests/CommonExamples.antt =====
-- An envelope from a peer with the key "peer", on a stream that a handler was given.
use open_acn.Base.{ap, done, attempt, ◌>>=◌, ap, ◌≡◌, [], ◌∷◌, none, some, ok, refl, arith, pure}
use open_acn.Wire.Word.{Bytes}
use open_acn.Wire.Conn.{Conn, read, write}
use open_acn.Wire.Frame.{read_frame, read_bytes, write_bytes, frame}
use open_acn.Wire.Word.{put_uint32, uint32}
use open_acn.Wire.Buffered.{read_full, read_full_loop, read_buffered}
use open_acn.Acn.Protocol.Send.{
  send_acn_success, send_message, send_message, send_acn_success, send_envelope_message,
  encode_acn_envelope,
}
use open_acn.Acn.Protocol.Receive.{read_envelope_message}
use open_acn.Por.Check.{accepted}
use open_acn.Common.Line.{closed, Line, line_pipe, closed}
use open_acn.Common.Handlers.{
  received_from_peer, handle_aea_envelope_stream, DhtHandler, receive_envelope_from_peer,
  handle_aea_envelope_stream,
}
use open_acn.Common.Handlers.Laws.{
  handle_aea_envelope_stream-closed, Represented, receive_envelope_from_peer-Represented,
  handle_aea_envelope_stream-closed,
}
use open_acn.Common.Handlers.Exchange.{
  arriving_line, after_reading, receive_envelope_from_peer-send_envelope_message,
}
use open_acn.Tests.Fixtures.{
  quiet, crypto, messages, envelopes, envelope_of, record_of, agent_accepted,
}

-- The message with the record of the agent, and the stream that brings it.
abbrev sent_bytes : Bytes
sent_bytes = frame (7 ∷ 8 ∷ 9 ∷ [])

abbrev receiving : Conn
receiving = record quiet { incoming = sent_bytes ∷ [] }

abbrev line : Line × Unit {0}
line = arriving_line receiving tt

receive_envelope_from_peer-send_envelope_message_example :
    receive_envelope_from_peer crypto messages envelopes (done "peer") line
    ≡ (ok (envelope_of (8 ∷ 9 ∷ [])), after_reading receiving tt)
unfolding send_envelope_message encode_acn_envelope write_bytes write
receive_envelope_from_peer-send_envelope_message_example =
    receive_envelope_from_peer-send_envelope_message crypto messages envelopes (done "peer")
      (record_of "agent") (envelope_of (8 ∷ 9 ∷ [])) (8 ∷ 9 ∷ []) refl accepted agent_accepted refl
      [] (7 ∷ 8 ∷ 9 ∷ []) quiet (record quiet { outgoing = sent_bytes }) receiving tt refl refl
      (omega arith) refl refl

receive_envelope_from_peer-Represented_example :
    (b : Bytes) × (line_pipe.read line ≡ (ok b, after_reading receiving tt))
    × Represented crypto messages envelopes (done "peer") b (envelope_of (8 ∷ 9 ∷ []))
receive_envelope_from_peer-Represented_example =
    receive_envelope_from_peer-Represented crypto messages envelopes (done "peer") line.0
      (after_reading receiving tt).0 tt tt (envelope_of (8 ∷ 9 ∷ []))
      receive_envelope_from_peer-send_envelope_message_example

-- A node that accepts every envelope.
abbrev node : DhtHandler (Unit {0})
node = record {
  handle_aea_envelope = λ e. pure none;
  handle_aea_address_request = λ a. pure (some (record_of "agent"), none);
}

-- What the handler leaves: the stream with an acknowledgement on it, closed.
abbrev after_handling : Line × Unit {0}
after_handling =
    (received_from_peer crypto messages envelopes node (done (envelope_of (8 ∷ 9 ∷ [])))
      (after_reading receiving tt)).1

envelope_handled :
    handle_aea_envelope_stream crypto messages envelopes node (done "peer") line
    ≡ (ok tt, after_handling)
unfolding handle_aea_envelope_stream send_acn_success send_message write_bytes write read_bytes
    read_frame read_full read_full_loop read_buffered read uint32 receive_envelope_from_peer
    read_envelope_message put_uint32
envelope_handled =
    ap (λ x. (attempt (λ _. x) >>= received_from_peer crypto messages envelopes node) line)
      receive_envelope_from_peer-send_envelope_message_example

handle_aea_envelope_stream-closed_example : after_handling.0.ending ≡ closed
handle_aea_envelope_stream-closed_example =
    handle_aea_envelope_stream-closed crypto messages envelopes (done "peer") node line
      after_handling envelope_handled

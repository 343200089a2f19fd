-- ===== src/Tests/StreamExamples.antt =====
-- An envelope from another peer, for an agent that has a mailbox.
use open_acn.Base.{◌≡◌, [], ◌∷◌, refl, some, done}
use open_acn.Base.GoMap.{lookup, insert}
use open_acn.Wire.Word.{put_uint32, uint32}
use open_acn.Wire.Buffered.{read_full, read_full_loop, read_buffered}
use open_acn.Wire.Conn.{read, write}
use open_acn.Wire.Frame.{frame, read_bytes, read_frame, write_bytes}
use open_acn.Acn.Protocol.Send.{send_acn_success, send_message}
use open_acn.Acn.Protocol.Receive.{read_envelope_message}
use open_acn.Por.Check.{is_valid_proof_of_representation}
use open_acn.Por.Ledger.{
  agent_address_from_public_key, cosmos_address_from_public_key_with_prefix,
  verify_ledger_signature, verify_fetchai_signature_btc, btc_pub_key_from_fetchai_public_key,
  parse_fetchai_signature, convert_str_encoded_signature_to_der,
}
use open_acn.Common.Handlers.{handle_aea_envelope_stream, receive_envelope_from_peer}
use open_acn.Peer.Route.{handle_aea_envelope, route_to_mailbox}
use open_acn.Common.Line.{Line}
use open_acn.Common.Handlers.Exchange.{arriving_line}
use open_acn.Peer.State.{DhtPeer}
use open_acn.Peer.Interfaces.{peer_envelope_stream}
use open_acn.Mailbox.State.{route_envelope}
use open_acn.Tests.Fixtures.{quiet, envelope_of, mailbox}
use open_acn.Tests.PeerExamples.{env, peer}

abbrev arriving_envelope : Line × DhtPeer
arriving_envelope =
    arriving_line (record quiet { incoming = frame (7 ∷ 8 ∷ 9 ∷ []) ∷ [] })
      (record peer { mailbox_server = some mailbox })

envelope_in_mailbox :
    (peer_envelope_stream env (done "peer") arriving_envelope).1.1.mailbox_server
    ≡ some (route_envelope (envelope_of (8 ∷ 9 ∷ [])) mailbox).1
unfolding handle_aea_envelope_stream receive_envelope_from_peer read_envelope_message read_bytes
    read_frame read_full read_full_loop read_buffered read put_uint32 uint32 write write_bytes
    send_acn_success send_message is_valid_proof_of_representation agent_address_from_public_key
    cosmos_address_from_public_key_with_prefix verify_ledger_signature verify_fetchai_signature_btc
    btc_pub_key_from_fetchai_public_key parse_fetchai_signature convert_str_encoded_signature_to_der
    handle_aea_envelope route_to_mailbox route_envelope lookup insert
envelope_in_mailbox = refl

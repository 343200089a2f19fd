-- ===== src/Tests/DelegateExamples.antt =====
-- A delegate client with the address "agent" on connection "c", and one with no name that sends.
use open_acn.Base.{List, ◌≡◌, ◌++◌, [], ◌∷◌, ok, refl, some}
use open_acn.Base.GoMap.{has, lookup, insert}
use open_acn.Wire.Word.{put_uint32, uint32}
use open_acn.Wire.Conn.{read, write}
use open_acn.Wire.Frame.{frame, read_bytes_conn, write_bytes_conn}
use open_acn.Acn.Protocol.Send.{send_acn_success, send_message}
use open_acn.Acn.Protocol.Receive.{read_agent_registration_message}
use open_acn.Por.Check.{is_valid_proof_of_representation}
use open_acn.Por.Ledger.{
  agent_address_from_public_key, cosmos_address_from_public_key_with_prefix,
  verify_ledger_signature, verify_fetchai_signature_btc, btc_pub_key_from_fetchai_public_key,
  parse_fetchai_signature, convert_str_encoded_signature_to_der,
}
use open_acn.Peer.State.{DhtPeer}
use open_acn.Peer.Delegate.{ready, Session, register_delegate, check_por, delegate_round}
use open_acn.Peer.Delegate.Register.{DelegateOf, register_delegate-DelegateOf}
use open_acn.Peer.Delegate.Queues.{RoundValid, delegate_round-RoundValid}
use open_acn.Peer.Delegate.Order.{
  queued, received, PairEvent, held, accepted_by, routed_from, after_pairs, routed-accepted,
}
use open_acn.Tests.Fixtures.{quiet, envelope_of, record_of}
use open_acn.Tests.PeerExamples.{env, peer}

abbrev connected_peer : DhtPeer
connected_peer = record peer {
  connections = ("c", record quiet { incoming = frame (8 ∷ []) ∷ [] }) ∷ [];
}

agent_registered :
    register_delegate env "c" connected_peer
    ≡ (ok (some "agent"), (register_delegate env "c" connected_peer).1)
unfolding register_delegate read_agent_registration_message check_por send_acn_success send_message
    read_bytes_conn write_bytes_conn read write put_uint32 uint32 lookup insert
    is_valid_proof_of_representation agent_address_from_public_key
    cosmos_address_from_public_key_with_prefix verify_ledger_signature verify_fetchai_signature_btc
    btc_pub_key_from_fetchai_public_key parse_fetchai_signature convert_str_encoded_signature_to_der
agent_registered = refl

register_delegate-DelegateOf_example :
    DelegateOf env "c" "agent" connected_peer (register_delegate env "c" connected_peer).1
register_delegate-DelegateOf_example =
    register_delegate-DelegateOf env "c" "agent" connected_peer
      (register_delegate env "c" connected_peer).1 agent_registered

-- The client with no name has sent an envelope to "agent".
abbrev session : Session
session = record {
  node = record peer {
    agent_records = ("", record_of "") ∷ [];
    connections = ("c", record quiet { incoming = frame (5 ∷ 9 ∷ []) ∷ [] }) ∷ [];
  };
  waiting = ready;
}

session-RoundValid : RoundValid "" session
unfolding has lookup
session-RoundValid = (refl, record { valid = λ pair queue p. cc })

delegate_round-RoundValid_example : RoundValid "" (delegate_round env "c" "" session).1
delegate_round-RoundValid_example = delegate_round-RoundValid env "c" "" session session-RoundValid

abbrev pair_events : List PairEvent
pair_events =
    queued (envelope_of (1 ∷ []))
    ∷ queued (envelope_of (2 ∷ []))
    ∷ received "agent"
    ∷ queued (envelope_of (3 ∷ []))
    ∷ []

routed-accepted_example :
    held "agent" peer ++ accepted_by "agent" pair_events peer
    ≡ routed_from "agent" pair_events peer ++ held "agent" (after_pairs pair_events peer)
routed-accepted_example = routed-accepted "agent" pair_events peer

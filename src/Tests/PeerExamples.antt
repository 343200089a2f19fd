-- ===== src/Tests/PeerExamples.antt =====
-- A peer with a mailbox for "agent", whose own agent is not ready, and the peers that it reaches.
use open_acn.Base.{
  true, attempt, ◌>>=◌, ap, Option, ap, String, ◌≡◌, false, none, some, [], ◌∷◌, ok, done, fail,
  msg, refl, arith,
}
use open_acn.Base.GoMap.{lookup, insert}
use open_acn.Acn.Message.{Envelope, AgentRecord}
use open_acn.Acn.Protocol.{timed_out}
use open_acn.Mailbox.State.{route_envelope, MailboxServer, start, register, is_addr_registered}
use open_acn.Mailbox.State.Invariant.{IsValid, start-IsValid, register-IsValid}
use open_acn.Peer.State.{DhtPeer, Environment, provided}
use open_acn.Peer.Records.{get_envelope_acn_record}
use open_acn.Peer.Requests.{
  handle_aea_address_request, found, handle_aea_address_request-get_envelope_acn_record,
}
use open_acn.Acn.Protocol.Receive.{read_acn_status, perform_address_lookup, read_lookup_response}
use open_acn.Acn.Protocol.Send.{
  send_lookup_request, send_message, send_envelope_message, encode_acn_envelope,
}
use open_acn.Wire.Buffered.{read_full, read_full_loop, read_buffered}
use open_acn.Wire.Word.{put_uint32, uint32}
use open_acn.Por.PeerKeys.{id_from_fetchai_public_key}
use open_acn.Por.Check.{is_valid_proof_of_representation}
use open_acn.Por.Ledger.{
  agent_address_from_public_key, cosmos_address_from_public_key_with_prefix,
  verify_ledger_signature, verify_fetchai_signature_btc, btc_pub_key_from_fetchai_public_key,
  parse_fetchai_signature, convert_str_encoded_signature_to_der,
}
use open_acn.Peer.Streams.{
  lookup_loop, providers_loop, route_envelope_with_new_stream, lookup_address_dht,
  route_envelope_dht_lookup,
}
use open_acn.Peer.Streams.Laws.{Represents}
use open_acn.Peer.Streams.Delivery.{Delivered, route_envelope_dht_lookup-Delivered}
use open_acn.Wire.Frame.{frame, read_frame, read_bytes, write_bytes}
use open_acn.Wire.Conn.{Conn, read, write}
use open_acn.Peer.Route.{slow_envelope_round, looked_up, route_peer_envelope, route_to_mailbox}
use open_acn.Peer.Route.Laws.{IsLocal, route_peer_envelope-IsLocal}
use open_acn.Peer.Route.SlowQueue.{HasRoom, KeepsRoom, route_peer_envelope-HasRoom}
use open_acn.Tests.Fixtures.{records, quiet, crypto, messages, envelopes, record_of, envelope_of}

-- A peer that holds the agent's record, and one that takes an envelope.
abbrev holder : Conn
holder = record quiet { incoming = frame (6 ∷ []) ∷ [] }

abbrev taker : Conn
taker = record quiet { incoming = frame (4 ∷ []) ∷ [] }

-- The first provider cannot be reached.
abbrev pub env : Environment
env = record {
  decode_peer_id = λ p. done p;
  own_public_key = "peer";
  own_peer_id = done "me";
  compute_cid = λ a. done a;
  provide = λ c. provided;
  find_providers = λ c. record {
    first = [];
    later =
        (record { id = "unreachable"; stream = fail (msg "no route") }
          ∷ record { id = "holder"; stream = done holder }
          ∷ [])
        ∷ [];
  };
  new_stream = λ id. done taker;
  crypto = crypto;
  messages = messages;
  envelopes = envelopes;
  records = records;
  write_error = none;
  late_status = λ a. timed_out;
  process_envelope = none;
}

abbrev mailbox_server : MailboxServer
mailbox_server = register "s" (record_of "agent") (start [])

mailbox_server-IsValid : IsValid mailbox_server
mailbox_server-IsValid = register-IsValid "s" (record_of "agent") (start []) (start-IsValid [])

abbrev pub peer : DhtPeer
peer = record {
  my_agent_address = "mine";
  my_agent_record = some (record_of "mine");
  agent_records = [];
  mailbox_server = some mailbox_server;
  connections = [];
  tcp_addresses = [];
  dht_addresses = [];
  acn_statuses = [];
  address_announced_map = [];
  provide_calls = [];
  slow_queue = [];
  sync_messages = [];
  enable_address_announcement = false;
  enable_relay = true;
  delegate_port = 11000;
  storage = [];
  is_closing = false;
}

-- From "mine" to "agent", and from "agent" to "nobody".
abbrev inward : Envelope
inward = record (envelope_of (7 ∷ [])) { sender = "mine" }

abbrev outward : Envelope
outward = record (envelope_of (7 ∷ [])) { sender = "agent"; to = "nobody" }

-- From an agent with no name to "agent".
abbrev anonymous : Envelope
anonymous = envelope_of (7 ∷ [])

-- A peer whose own agent has no name.
abbrev outsider : DhtPeer
outsider = record peer { my_agent_address = ""; my_agent_record = none; mailbox_server = none }

handle_aea_address_request-get_envelope_acn_record_example :
    (r : AgentRecord) × (lookup "agent" mailbox_server.agent_records ≡ some r)
    × (handle_aea_address_request env "agent" peer ≡ (ok (found r), peer))
    × (get_envelope_acn_record peer outward ≡ done (some r))
unfolding lookup is_addr_registered register insert
handle_aea_address_request-get_envelope_acn_record_example =
    handle_aea_address_request-get_envelope_acn_record env peer mailbox_server outward refl
      mailbox_server-IsValid refl refl refl

agent_found : lookup_address_dht env "agent" ≡ ok ("id", some (record_of "agent"))
unfolding lookup_address_dht lookup_loop providers_loop perform_address_lookup read_lookup_response
    send_lookup_request send_message write_bytes write read_bytes read_frame read_full
    read_full_loop read_buffered read uint32 put_uint32 is_valid_proof_of_representation
    agent_address_from_public_key cosmos_address_from_public_key_with_prefix verify_ledger_signature
    verify_fetchai_signature_btc btc_pub_key_from_fetchai_public_key parse_fetchai_signature
    convert_str_encoded_signature_to_der id_from_fetchai_public_key
agent_found = refl

anonymous_sent : route_envelope_dht_lookup env anonymous outsider ≡ (ok tt, outsider)
unfolding route_envelope_dht_lookup route_envelope_with_new_stream get_envelope_acn_record
    send_envelope_message encode_acn_envelope read_acn_status lookup_address_dht lookup_loop
    providers_loop perform_address_lookup read_lookup_response send_lookup_request send_message
    write_bytes write read_bytes read_frame read_full read_full_loop read_buffered read uint32
    put_uint32 is_valid_proof_of_representation agent_address_from_public_key
    cosmos_address_from_public_key_with_prefix verify_ledger_signature verify_fetchai_signature_btc
    btc_pub_key_from_fetchai_public_key parse_fetchai_signature convert_str_encoded_signature_to_der
    id_from_fetchai_public_key
anonymous_sent = refl

anonymous_routed : route_peer_envelope env anonymous outsider ≡ (ok tt, outsider)
unfolding route_peer_envelope route_to_mailbox get_envelope_acn_record lookup
anonymous_routed = ap (λ x. (attempt (λ _. x) >>= looked_up env anonymous) outsider) anonymous_sent

-- The agent of the peer sends to an agent with a mailbox.
abbrev after_inward : DhtPeer
after_inward = record peer { mailbox_server = some (route_envelope inward mailbox_server).1 }

inward_routed : route_peer_envelope env inward peer ≡ (ok tt, after_inward)
unfolding route_peer_envelope route_to_mailbox get_envelope_acn_record lookup route_envelope insert
    register
inward_routed = refl

route_peer_envelope-IsLocal_example : IsLocal "mine" peer
route_peer_envelope-IsLocal_example =
    route_peer_envelope-IsLocal env peer after_inward inward inward_routed

env-KeepsRoom : KeepsRoom env
env-KeepsRoom = record { agent = λ f e p. cc }

route_peer_envelope-HasRoom_example :
    HasRoom (route_peer_envelope env outward peer).1 × HasRoom (slow_envelope_round env peer).1
route_peer_envelope-HasRoom_example =
    route_peer_envelope-HasRoom env env-KeepsRoom outward peer (record { room = omega arith })

route_envelope_dht_lookup-Delivered_example :
    (id : String) × (target : AgentRecord) × (envel_rec : Option AgentRecord) × Represents crypto
      "agent" id target
    × (get_envelope_acn_record outsider anonymous ≡ done envel_rec)
    × Delivered env envel_rec anonymous id
    × (outsider ≡ outsider)
route_envelope_dht_lookup-Delivered_example =
    route_envelope_dht_lookup-Delivered env anonymous outsider outsider anonymous_sent

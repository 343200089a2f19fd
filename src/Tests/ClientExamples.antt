-- ===== src/Tests/ClientExamples.antt =====
-- A client with no name that reaches "agent" through its relay at the second attempt.
use open_acn.Base.{
  String, ◌=ˢ◌, if◌then◌else◌, ℕ, ◌≡◌, none, some, [], ◌∷◌, done, fail, msg, ok, refl, arith,
}
use open_acn.Wire.Word.{put_uint32, uint32}
use open_acn.Wire.Conn.{Conn, read, write}
use open_acn.Wire.Buffered.{read_full, read_full_loop, read_buffered}
use open_acn.Wire.Frame.{frame, read_frame, read_bytes, write_bytes}
use open_acn.Acn.Protocol.Send.{
  send_lookup_request, send_message, send_envelope_message, encode_acn_envelope,
}
use open_acn.Acn.Protocol.Receive.{
  perform_address_lookup, read_lookup_response, read_acn_status, send_agent_register_message,
}
use open_acn.Por.PeerKeys.{id_from_fetchai_public_key}
use open_acn.Por.Check.{is_valid_proof_of_representation}
use open_acn.Por.Ledger.{
  agent_address_from_public_key, cosmos_address_from_public_key_with_prefix,
  verify_ledger_signature, verify_fetchai_signature_btc, btc_pub_key_from_fetchai_public_key,
  parse_fetchai_signature, convert_str_encoded_signature_to_der,
}
use open_acn.Client.State.{
  DhtClient, Dials, StreamType, aea_address_stream, aea_envelope_stream, register_agent_address,
}
use open_acn.Client.Dial.{
  loop_until_timeout, first_success, loop_until_timeout_lem, new_stream_loop_until_timeout,
}
use open_acn.Client.Route.{route_client_envelope}
use open_acn.Client.Route.Laws.{Routed, route_client_envelope-Routed}
use open_acn.Tests.Fixtures.{quiet, crypto, messages, envelopes, envelope_of, record_of}

-- A connection on which one message comes.
abbrev bringing : ℕ → Conn
bringing kind = record quiet { incoming = frame (kind ∷ []) ∷ [] }

-- The relay takes lookups, and the peer with the id of the record's key takes envelopes.
abbrev dials : String → StreamType → Dials
dials peer aea_address_stream = record {
  first = fail (msg "no route");
  retries = done (bringing 6) ∷ [];
}
dials peer aea_envelope_stream = record {
  first = if peer =ˢ "relay" then fail (msg "protocol not supported") else done (bringing 4);
  retries = [];
}

abbrev pub client : DhtClient (Unit {0})
client = record {
  my_agent_address = "";
  my_agent_record = record_of "agent";
  relay_peer = "relay";
  process_envelope = none;
  crypto = crypto;
  messages = messages;
  envelopes = envelopes;
  dials = dials;
  register_stream = done (bringing 4);
  new_multiaddr = λ a. done tt;
  connect_through_relay = λ p. fail (msg "no reservation");
  connect_by_routing = λ p. done tt;
}

loop_until_timeout_lem_example :
    loop_until_timeout "timeout" 2 (fail (msg "b") ∷ done quiet ∷ []) (fail (msg "a"))
    ≡ first_success (fail (msg "a") ∷ fail (msg "b") ∷ done quiet ∷ [])
loop_until_timeout_lem_example =
    loop_until_timeout_lem "timeout" (fail (msg "a")) (fail (msg "b") ∷ done quiet ∷ []) 2
      (omega arith)

envelope_routed : route_client_envelope client (envelope_of (7 ∷ [])) tt ≡ some (ok tt, tt)
unfolding route_client_envelope new_stream_loop_until_timeout loop_until_timeout
    register_agent_address send_agent_register_message perform_address_lookup read_lookup_response
    send_lookup_request send_message send_envelope_message encode_acn_envelope read_acn_status
    write_bytes write read_bytes read_frame read_full read_full_loop read_buffered read uint32
    put_uint32 is_valid_proof_of_representation agent_address_from_public_key
    cosmos_address_from_public_key_with_prefix verify_ledger_signature verify_fetchai_signature_btc
    btc_pub_key_from_fetchai_public_key parse_fetchai_signature convert_str_encoded_signature_to_der
    id_from_fetchai_public_key
envelope_routed = refl

route_client_envelope-Routed_example :
    ((envelope_of (7 ∷ [])).sender ≡ client.my_agent_address) × Routed client (envelope_of (7 ∷ []))
route_client_envelope-Routed_example =
    route_client_envelope-Routed client (envelope_of (7 ∷ [])) tt tt envelope_routed

-- ===== src/Client/Route.antt =====
-- `RouteEnvelope` of a client. The wait until the agent is ready is left out.
pub mod Laws
use open_acn.Base.{
  String, Option, none, some, Except, done, fail, Err, msg, error_text, Result, ok, err, panic,
  Exec, pure, raise, lift, deref, attempt, from_result, if◌then◌else◌, ◌=ˢ◌,
}
use open_acn.Base.Loop.{Loop, embed, ◌>>=◌, ◌>>◌}
use open_acn.Wire.Word.{Bytes}
use open_acn.Wire.Conn.{Conn}
use open_acn.Wire.Pipe.{stream_pipe}
use open_acn.Acn.Message.{AgentRecord, Envelope, StatusBody, is_success, ◌+ˢ◌}
use open_acn.Acn.Protocol.Send.{send_envelope_message}
use open_acn.Acn.Protocol.Receive.{read_acn_status, perform_address_lookup}
use open_acn.Por.Check.{Verdict, is_verified, is_valid_proof_of_representation}
use open_acn.Por.PeerKeys.{id_from_fetchai_public_key}
use open_acn.Common.Line.{Line, line_pipe, end_line, closed, reset, on_new_stream}
use open_acn.Common.Proof.{status_text, proof_failure}
use open_acn.Client.State.{DhtClient, aea_address_stream, aea_envelope_stream}
use open_acn.Client.Send.{serialized}
use open_acn.Client.Dial.{new_stream_loop_until_timeout}

module _ {S : Type 0} (client : DhtClient S) (envel : Envelope) where
  abbrev pub identified : Result String → Loop S String
  identified (ok id) = embed (pure id)
  identified (err e) =
      embed
        (raise (msg ("CRITICAL route - couldn't get peer ID from record peerID:" +ˢ error_text e)))
  identified panic = embed (from_result panic)

  abbrev pub judged : AgentRecord → Verdict → Loop S String
  judged r v =
      if is_verified v
      then identified (id_from_fetchai_public_key client.crypto r.peer_public_key)
      else embed (raise (proof_failure v))

  -- The lookup at the relay: the id of the peer that represents the target.
  abbrev pub resolve : Conn → Loop S String
  resolve c = do
    target_record ←
        embed (from_result (perform_address_lookup client.messages stream_pipe envel.to (some c)).0)
    r ← embed (deref target_record)
    v ←
        embed (
          from_result (is_valid_proof_of_representation client.crypto r envel.to r.peer_public_key))
    judged r v

  abbrev pub relay_address : String → String
  relay_address peer_id = "/p2p/" +ˢ client.relay_peer +ˢ "/p2p-circuit/p2p/" +ˢ peer_id

  abbrev pub connected : String → Except (Unit {0}) → Exec S (Unit {0})
  connected peer_id (done _) = pure tt
  connected peer_id (fail e) = lift (client.connect_by_routing peer_id)

  abbrev pub send_to : String → Loop S (Unit {0})
  send_to peer_id = do
    c ← new_stream_loop_until_timeout client peer_id aea_envelope_stream
    embed (on_new_stream (serialized client (client.envelopes.marshal envel)) (done c))

  abbrev pub through_relay : Loop S (Unit {0})
  through_relay = do
    c ← new_stream_loop_until_timeout client client.relay_peer aea_address_stream
    peer_id ← resolve c
    embed (lift (client.new_multiaddr (relay_address peer_id)))
    embed (connected peer_id (client.connect_through_relay peer_id))
    send_to peer_id

  -- An envelope that the client's own agent took is then looked up and sent like any other.
  abbrev pub to_own_agent : Option (Envelope → Exec S (Unit {0})) → Loop S (Unit {0})
  to_own_agent none = embed (pure tt)
  to_own_agent (some f) = do embed (f envel); through_relay

  abbrev pub wrong_sender : Err
  wrong_sender = msg ("Sender (" +ˢ envel.sender +ˢ ") must match registered address")

  unfoldable pub route_client_envelope : Loop S (Unit {0})
  route_client_envelope =
      if envel.sender =ˢ client.my_agent_address
      then (if envel.to =ˢ client.my_agent_address
          then to_own_agent client.process_envelope
          else through_relay)
      else embed (raise wrong_sender)

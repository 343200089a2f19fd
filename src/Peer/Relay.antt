-- ===== src/Peer/Relay.antt =====
-- `handleAeaRegisterStream`, by which a relay client registers, and `handleAeaNotifStream`, by which
-- a peer tells that it joined (dht/dhtpeer/dhtpeer.go). The registration delay and the metrics are
-- left out, and so is the wait for notifications that are being handled.
pub mod Laws
pub mod Register
use open_acn.Base.{
  String, Bool, true, false, not, ◌&&◌, Option, none, some, List, [], ◌∷◌, Except, done, fail,
  Result, Exec, pure, crash, deref, attempt, from_result, ◌>>=◌, ◌>>◌, if◌then◌else◌, ◌=ˢ◌, ◌==◌,
  error_text, ◌≡◌, ok,
}
use open_acn.Base.GoMap.{insert, keys}
use open_acn.Wire.Word.{Bytes}
use open_acn.Acn.Message.{AgentRecord}
use open_acn.Acn.Protocol.{ignore}
use open_acn.Acn.Protocol.Send.{send_acn_error, send_acn_success}
use open_acn.Acn.Protocol.Receive.{read_agent_registration_message}
use open_acn.Por.Check.{Verdict, is_verified, is_valid_proof_of_representation}
use open_acn.Storage.{save_agent_record_to_persistent_storage}
use open_acn.Common.Line.{Line, on_node, line_pipe, end_line, closed, reset}
use open_acn.Por.Crypto.{Crypto}
use open_acn.Por.PeerKeys.{id_from_fetchai_public_key}
use open_acn.Common.Handlers.{key_or_empty}
use open_acn.Peer.State.{PeerId, DhtPeer, Environment, gets, modify}
use open_acn.Peer.Announce.{is_address_announced, register_agent_address}

abbrev put_storage : {A : Type 0} → DhtPeer → Result A × Bytes → Result A × DhtPeer
put_storage s (r, file) = (r, record s { storage = file })

-- The two maps are under different locks; the file is written under the second one.
abbrev pub put_client : String → AgentRecord → DhtPeer → DhtPeer
put_client client_peer_id r s = record s {
  agent_records = insert r.address r s.agent_records;
  dht_addresses = insert r.address client_peer_id s.dht_addresses;
}

-- The peer at the other end of a stream: its id, and the conversion of its public key, which are of the
-- same key.
pub record RemotePeer (crypto : Crypto) : Type 0 where
  pub id : PeerId
  pub public_key : Except String
  pub same_key : (k : String) → public_key ≡ done k → id_from_fetchai_public_key crypto k ≡ ok id

module _ (env : Environment) where
  abbrev pub save_record : AgentRecord → Exec DhtPeer (Unit {0})
  save_record r s =
      put_storage s
        (save_agent_record_to_persistent_storage env.records env.write_error r s.storage)

  abbrev pub announce_client : String → Exec DhtPeer (Unit {0})
  announce_client addr = do
    wanted ← gets (λ s. s.enable_address_announcement && not (is_address_announced addr s))
    if wanted then ignore (register_agent_address env addr) else pure tt

  -- What follows the acknowledgement.
  unfoldable pub add_relay_client : String → AgentRecord → Exec DhtPeer (Unit {0})
  add_relay_client client_peer_id r = do
    modify (put_client client_peer_id r)
    ignore (save_record r)
    announce_client r.address

  -- The client at the other end.
  module _ (client : RemotePeer env.crypto) where
    abbrev pub acknowledged : AgentRecord → Except (Unit {0}) → Exec (Line × DhtPeer) (Unit {0})
    acknowledged r (fail e) = end_line reset
    acknowledged r (done _) = end_line closed >> on_node (add_relay_client client.id r)

    -- A verdict that is neither an error nor a success panics on `err.Error()`.
    abbrev pub refused_client : Verdict → Exec (Line × DhtPeer) (Unit {0})
    refused_client (b, none) = crash
    refused_client (b, some e) =
        ignore (send_acn_error env.messages line_pipe (error_text e) (b.code ∷ []))

    abbrev pub checked_client : AgentRecord → Verdict → Exec (Line × DhtPeer) (Unit {0})
    checked_client r v =
        if is_verified v
        then (attempt (send_acn_success env.messages line_pipe) >>= acknowledged r)
        else refused_client v

    abbrev pub registering : Except (Option AgentRecord) → Exec (Line × DhtPeer) (Unit {0})
    registering (fail e) = end_line reset
    registering (done agent_record) = do
      r ← deref agent_record
      v ←
          from_result (
            is_valid_proof_of_representation env.crypto r r.address
              (key_or_empty client.public_key))
      checked_client r v

    unfoldable pub handle_aea_register_stream : Exec (Line × DhtPeer) (Unit {0})
    handle_aea_register_stream = do
      register ← attempt (read_agent_registration_message env.messages line_pipe)
      registering register

  -- The loops over the clients; an address that is not announced is logged.
  unfoldable pub announce_all : List String → Exec DhtPeer (Unit {0})
  announce_all [] = pure tt
  announce_all (addr ∷ addrs) = ignore (register_agent_address env addr) >> announce_all addrs

  -- The addresses of the relay clients, and of the delegate clients, where the peer serves such.
  abbrev pub relayed : DhtPeer → List String
  relayed s = if s.enable_relay then keys s.dht_addresses else []

  abbrev pub delegated : DhtPeer → List String
  delegated s = if not (s.delegate_port == 0) then keys s.tcp_addresses else []

  unfoldable pub announce_mine : Exec DhtPeer (Unit {0})
  announce_mine = do
    addr ← gets (λ s. s.my_agent_address)
    already ← gets (is_address_announced addr)
    if not (addr =ˢ "") && not already then register_agent_address env addr else pure tt

  -- An agent of the peer that cannot be announced ends the handler.
  abbrev pub announced_mine : Except (Unit {0}) → Exec DhtPeer (Unit {0})
  announced_mine (fail e) = pure tt
  announced_mine (done _) = do
    relay_clients ← gets relayed
    announce_all relay_clients
    delegate_clients ← gets delegated
    announce_all delegate_clients
    modify (λ s. record s { enable_address_announcement = true })

  -- Whether the notifying peer is in the routing table before the timeout is a parameter.
  unfoldable pub handle_aea_notif_stream : Bool → Exec DhtPeer (Unit {0})
  handle_aea_notif_stream false = pure tt
  handle_aea_notif_stream true = do r ← attempt announce_mine; announced_mine r

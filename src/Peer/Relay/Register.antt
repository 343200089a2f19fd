-- ===== src/Peer/Relay/Register.antt =====
-- The registration of a relay client.
use open_acn.Base.{String, ◌≡◌, ◌⊎◌, true, some, done, ok}
use open_acn.Base.GoMap.{lookup}
use open_acn.Wire.Word.{Bytes}
use open_acn.Acn.Message.{AgentRecord, register, message}
use open_acn.Por.Check.{Verdict, is_verified, is_valid_proof_of_representation}
use open_acn.Common.Line.{Line, line_pipe}
use open_acn.Por.PeerKeys.{id_from_fetchai_public_key}
use open_acn.Common.Handlers.{key_or_empty}
use open_acn.Peer.State.{DhtPeer, Environment}
use open_acn.Peer.Relay.{RemotePeer, put_client}

-- The two maps that a registration fills.
abbrev HasClient : String → AgentRecord → DhtPeer → Type 0
HasClient client_peer_id r s =
    (lookup r.address s.dht_addresses ≡ some client_peer_id)
    × (lookup r.address s.agent_records ≡ some r)

-- The first message on the stream is a registration with a record that is a valid proof for the key of
-- the client at the other end, or for the empty key where that key cannot be converted. The address of
-- the record is that of a client behind this peer, with the id of the peer at the other end, and where
-- its key can be converted, that is the id of the key in the record.
pub record Registered (env : Environment) (client : RemotePeer env.crypto) (t : Line × DhtPeer)
    (u : DhtPeer) : Type 0 where
  pub bytes : Bytes
  pub agent : AgentRecord
  pub verdict : Verdict
  pub read : (line_pipe.read t).0 ≡ ok bytes
  pub decoded : env.messages.unmarshal bytes ≡ done (message (register (some agent)))
  pub proof :
      is_valid_proof_of_representation env.crypto agent agent.address
        (key_or_empty client.public_key)
      ≡ ok verdict
  pub verified : is_verified verdict ≡ true
  pub same_peer :
      (k : String)
      → client.public_key ≡ done k
      → (agent.peer_public_key ≡ k)
        × (id_from_fetchai_public_key env.crypto agent.peer_public_key ≡ ok client.id)
  pub has_client : HasClient client.id agent u

module _ (env : Environment) (client : RemotePeer env.crypto) where
  abbrev saved_client : AgentRecord → DhtPeer → Bytes → DhtPeer
  saved_client r s b = record (put_client client.id r s) { storage = b }

  -- What the handler does to the state of the peer, after the message was read.
  module _ (t0 : Line × DhtPeer) (b : Bytes) (read : (line_pipe.read t0).0 ≡ ok b) where
    abbrev Outcome : Line × DhtPeer → Line × DhtPeer → Type 0
    Outcome t u = (u.1 ≡ t.1) ⊎ Registered env client t0 u.1

-- ===== src/Peer/State.antt =====
-- The state of a `DHTPeer` that its handlers read and write, what it takes from the libraries and from
-- other peers, and the acknowledgements of delegate clients.
use open_acn.Base.{
  ℕ, crash, String, Bool, Option, none, some, List, [], ◌∷◌, Except, Err, msg, Result, ok, Exec,
  pure, raise, deref, ◌>>=◌, ◌>>◌, if◌then◌else◌,
}
use open_acn.Base.GoMap.{GoMap, lookup, insert}
use open_acn.Wire.Word.{Bytes}
use open_acn.Wire.Conn.{Conn}
use open_acn.Acn.Message.{AgentRecord, Envelope, StatusBody, AcnMessage, is_success}
use open_acn.Acn.Codec.{Codec}
use open_acn.Por.Crypto.{Crypto}
use open_acn.Acn.Protocol.{Received, arrived, timed_out}
use open_acn.Acn.Protocol.Receive.{wait_for_status}
use open_acn.Mailbox.State.{MailboxServer}

-- A connection is shared by the handler that reads it and the routing that writes on it: the name
-- stands for the pointer.
abbrev pub ConnRef : Type 0
ConnRef = String

-- `cid.Cid`, by its text
abbrev pub Cid : Type 0
Cid = String

pub record DhtPeer : Type 0 where
  pub my_agent_address : String
  pub my_agent_record : Option AgentRecord
  pub agent_records : GoMap AgentRecord
  pub mailbox_server : Option MailboxServer
  -- the connections that are open, and the one of each delegate client
  pub connections : GoMap Conn
  pub tcp_addresses : GoMap ConnRef
  pub dht_addresses : GoMap String
  -- the buffer of each status channel
  pub acn_statuses : GoMap (List StatusBody)
  pub address_announced_map : GoMap Bool
  -- the cids with which `dht.Provide` was called, the last one first
  pub provide_calls : List Cid
  pub slow_queue : List Envelope
  -- the channel of each pair of a target and a sender
  pub sync_messages : GoMap (List Envelope)
  pub enable_address_announcement : Bool
  pub enable_relay : Bool
  pub delegate_port : ℕ
  -- the file of agent records
  pub storage : Bytes
  pub is_closing : Bool

-- How `dht.Provide` ends.
pub data Provided : Type 0 where
  provided : Provided
  deadline_exceeded : Provided
  provide_failed : Err → Provided

-- `peer.ID`
abbrev pub PeerId : Type 0
PeerId = String

-- A provider of an address, and the stream that `NewStream` opens to it.
pub record Provider : Type 0 where
  pub id : PeerId
  pub stream : Except Conn

-- What `FindProvidersAsync` gives in the first round of a lookup, and in each of the rounds that
-- begin before the lookup's time is up.
pub record Lookup : Type 0 where
  pub first : List Provider
  pub later : List (List Provider)

-- The libraries, the agent, and the other peers.
pub record Environment : Type 1 where
  pub decode_peer_id : String → Except PeerId
  -- `utils.FetchAIPublicKeyFromPubKey(dhtPeer.publicKey)`
  pub own_public_key : String
  -- `peer.IDFromPublicKey(dhtPeer.publicKey)`
  pub own_peer_id : Except PeerId
  pub compute_cid : String → Except Cid
  pub provide : Cid → Provided
  pub find_providers : Cid → Lookup
  -- `routedHost.NewStream` with the envelope protocol
  pub new_stream : PeerId → Except Conn
  pub crypto : Crypto
  pub messages : Codec AcnMessage
  pub envelopes : Codec Envelope
  pub records : Codec AgentRecord
  -- the error of a `Write` on the file of agent records
  pub write_error : Option Err
  -- the select of `WaitForStatus` on a channel that is empty: a status comes, or the timer
  pub late_status : String → Received
  pub process_envelope : Option (Envelope → Exec DhtPeer (Unit {0}))

abbrev pub gets : {A : Type 0} → (DhtPeer → A) → Exec DhtPeer A
gets f s = (ok (f s), s)

abbrev pub modify : (DhtPeer → DhtPeer) → Exec DhtPeer (Unit {0})
modify f s = (ok tt, f s)

abbrev store_conn : {A : Type 0} → ConnRef → DhtPeer → Result A × Conn → Result A × DhtPeer
store_conn conn s (r, c) = (r, record s { connections = insert conn c s.connections })

abbrev pub on_open : {A : Type 0} → ConnRef → Exec Conn A → Option Conn → Exec DhtPeer A
on_open conn action none s = crash s
on_open conn action (some c) s = store_conn conn s (action c)

-- An action on the connection of a delegate client.
abbrev pub on_delegate : {A : Type 0} → ConnRef → Exec Conn A → Exec DhtPeer A
on_delegate conn action s = on_open conn action (lookup conn s.connections) s

module _ (env : Environment) where
  -- The select on the status channel of an address. A channel that is not in the map is nil, and
  -- only the timer ends the select.
  abbrev pub take_status : String → Option (List StatusBody) → Exec DhtPeer Received
  take_status addr none = pure timed_out
  take_status addr (some []) = pure (env.late_status addr)
  take_status addr (some (b ∷ rest)) =
      modify (λ s. record s { acn_statuses = insert addr rest s.acn_statuses })
      >> pure (arrived (some b))

  abbrev pub select_status : String → Exec DhtPeer Received
  select_status addr = do
    counter_party ← gets (λ s. lookup addr s.acn_statuses)
    take_status addr counter_party

  unfoldable pub await_acn_status : String → Exec DhtPeer (Unit {0})
  unfolding wait_for_status
  await_acn_status addr = do
    status ← wait_for_status (select_status addr)
    b ← deref status
    if is_success b.code then pure tt else raise (msg "bad status!")

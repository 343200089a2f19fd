-- ===== src/Peer/Delegate.antt =====
-- `handleNewDelegationConnection` of dht/dhtpeer/dhtpeer.go, with `CheckPOR` and
-- `AddAcnStatusMessage`: the registration of a delegate client, and one round of the loop that reads
-- its messages. The loop ends with the round that says so. Closing the connection, the registration
-- delay and the metrics are left out.
pub mod Register
pub mod Queues
pub mod Order
pub mod Accept
use open_acn.Base.{
  String, ℕ, Bool, true, false, Option, none, some, List, [], ◌∷◌, ◌++◌, length, leb, Except, done,
  fail, Result, ok, Exec, pure, crash, deref, attempt, from_result, ◌>>=◌, ◌>>◌, if◌then◌else◌,
  ◌=ˢ◌, error_text,
}
use open_acn.Base.GoMap.{GoMap, lookup, insert, delete}
use open_acn.Wire.Frame.{read_bytes_conn, write_bytes_conn}
use open_acn.Wire.Pipe.{Pipe}
use open_acn.Acn.Message.{AgentRecord, StatusBody, Envelope, ◌+ˢ◌}
use open_acn.Acn.Protocol.{ignore, StatusQueue}
use open_acn.Acn.Protocol.Send.{send_acn_error, send_acn_success}
use open_acn.Acn.Protocol.Receive.{read_agent_registration_message}
use open_acn.Aea.Handle.{handle_acn_message_from_pipe}
use open_acn.Por.Check.{Verdict, is_verified, is_valid_proof_of_representation}
use open_acn.Peer.State.{ConnRef, DhtPeer, Environment, gets, modify, on_delegate}
use open_acn.Peer.Announce.{register_agent_address}

abbrev pub acn_statuses_queue_size : ℕ
acn_statuses_queue_size = 1000

abbrev pub sync_messages_size : ℕ
sync_messages_size = 1000

-- `utils.ConnPipe{Conn: conn}`
abbrev pub delegate_pipe : ConnRef → Pipe DhtPeer
delegate_pipe conn = record {
  read = on_delegate conn read_bytes_conn;
  write = λ b. on_delegate conn (write_bytes_conn b);
}

abbrev pub put_delegate : ConnRef → AgentRecord → DhtPeer → DhtPeer
put_delegate conn r s = record s {
  agent_records = insert r.address r s.agent_records;
  tcp_addresses = insert r.address conn s.tcp_addresses;
  acn_statuses = insert r.address [] s.acn_statuses;
}

-- The client's address leaves the maps; its record stays.
abbrev pub forget_delegate : String → DhtPeer → DhtPeer
forget_delegate addr s = record s {
  tcp_addresses = delete addr s.tcp_addresses;
  acn_statuses = delete addr s.acn_statuses;
}

module _ (env : Environment) where
  unfoldable pub check_por : AgentRecord → Result Verdict
  check_por r = is_valid_proof_of_representation env.crypto r r.address env.own_public_key

  module _ (conn : ConnRef) where
    -- A client whose address cannot be announced keeps its place in the maps.
    abbrev pub announced_delegate : String → Except (Unit {0}) → Exec DhtPeer (Option String)
    announced_delegate addr (fail e) = pure none
    announced_delegate addr (done _) = pure (some addr)

    abbrev pub announce_delegate : String → Bool → Exec DhtPeer (Option String)
    announce_delegate addr false = pure (some addr)
    announce_delegate addr true = do
      r ← attempt (register_agent_address env addr)
      announced_delegate addr r

    abbrev pub acknowledged_delegate :
        AgentRecord → Except (Unit {0}) → Exec DhtPeer (Option String)
    acknowledged_delegate r (fail e) = pure none
    acknowledged_delegate r (done _) = do
      modify (put_delegate conn r)
      enabled ← gets (λ s. s.enable_address_announcement)
      announce_delegate r.address enabled

    -- A verdict that is neither an error nor a success panics on `err.Error()`.
    abbrev pub refused_delegate : Verdict → Exec DhtPeer (Option String)
    refused_delegate (b, none) = crash
    refused_delegate (b, some e) = do
      ignore (send_acn_error env.messages (delegate_pipe conn) (error_text e) (b.code ∷ []))
      pure none

    abbrev pub checked_delegate : AgentRecord → Verdict → Exec DhtPeer (Option String)
    checked_delegate r v =
        if is_verified v
        then (attempt (send_acn_success env.messages (delegate_pipe conn))
            >>= acknowledged_delegate r)
        else refused_delegate v

    abbrev pub registering_delegate : Except (Option AgentRecord) → Exec DhtPeer (Option String)
    registering_delegate (fail e) = pure none
    registering_delegate (done agent_record) = do
      r ← deref agent_record
      v ← from_result (check_por r)
      checked_delegate r v

    -- Up to the loop: the address for which the messages are read, if they are.
    unfoldable pub register_delegate : Exec DhtPeer (Option String)
    register_delegate = do
      register ← attempt (read_agent_registration_message env.messages (delegate_pipe conn))
      registering_delegate register

-- Whether the handler waits to put a status into a channel that is full, or waits for ever on a
-- channel that is nil. A channel that is replaced while a handler waits on it is not told apart.
pub data Waiting : Type 0 where
  ready : Waiting
  on_full : StatusBody → Waiting
  for_ever : Waiting

pub record Session : Type 0 where
  pub node : DhtPeer
  pub waiting : Waiting

abbrev pub put_session : {A : Type 0} → Session → Result A × DhtPeer → Result A × Session
put_session s (r, node) = (r, record s { node = node })

abbrev pub on_peer : {A : Type 0} → Exec DhtPeer A → Exec Session A
on_peer m s = put_session s (m s.node)

abbrev pub session_pipe : ConnRef → Pipe Session
session_pipe conn = record {
  read = on_peer (on_delegate conn read_bytes_conn);
  write = λ b. on_peer (on_delegate conn (write_bytes_conn b));
}

abbrev pub put_status : StatusBody → String → Option (List StatusBody) → Session → Session
put_status status id none s = record s { waiting = for_ever }
put_status status id (some queue) s =
    if leb acn_statuses_queue_size (length queue)
    then record s { waiting = on_full status }
    else record {
      node = record s.node {
        acn_statuses = insert id (queue ++ (status ∷ [])) s.node.acn_statuses;
      };
      waiting = ready;
    }

unfoldable pub add_acn_status_message : StatusBody → String → Exec Session (Unit {0})
add_acn_status_message status counterparty_id s =
    (ok tt, put_status status counterparty_id (lookup counterparty_id s.node.acn_statuses) s)

abbrev pub status_queue : StatusQueue Session
status_queue = record { add_acn_status_message = add_acn_status_message }

abbrev pub pair_of : Envelope → String
pair_of envel = envel.to +ˢ envel.sender

abbrev pub channel : Option (List Envelope) → List Envelope
channel none = []
channel (some queue) = queue

-- A channel that is full drops the envelope.
abbrev pub offer : Envelope → List Envelope → List Envelope
offer envel queue = if leb sync_messages_size (length queue) then queue else queue ++ (envel ∷ [])

unfoldable pub queue_envelope : Envelope → DhtPeer → DhtPeer
queue_envelope envel s = record s {
  sync_messages =
      insert (pair_of envel) (offer envel (channel (lookup (pair_of envel) s.sync_messages)))
        s.sync_messages;
}

module _ (env : Environment) (conn : ConnRef) (addr : String) where
  abbrev pub on_session : (DhtPeer → DhtPeer) → Exec Session (Unit {0})
  on_session f s = (ok tt, record s { node = f s.node })

  abbrev pub from_client : Envelope → Exec Session Bool
  from_client envel =
      if envel.sender =ˢ addr then (on_session (queue_envelope envel) >> pure true) else pure true

  -- An error of the read ends the loop.
  abbrev pub handled : Except (Option Envelope) → Exec Session Bool
  handled (fail e) = on_session (forget_delegate addr) >> pure false
  handled (done none) = pure true
  handled (done (some envel)) = from_client envel

  abbrev pub next_message : Waiting → Exec Session Bool
  next_message for_ever = pure true
  next_message (on_full status) = add_acn_status_message status addr >> pure true
  next_message ready = do
    r ← attempt (
        handle_acn_message_from_pipe env.messages env.envelopes (session_pipe conn) status_queue
          addr)
    handled r

  -- One round of the loop, and whether it goes on. A handler that waits tries its status again.
  unfoldable pub delegate_round : Exec Session Bool
  delegate_round s = next_message s.waiting s

-- What the goroutine of a pair takes from its channel, to give it to `RouteEnvelope`.
abbrev pub taken : String → Option (List Envelope) → DhtPeer → Option Envelope × DhtPeer
taken pair (some (e ∷ queue)) s =
    (some e, record s { sync_messages = insert pair queue s.sync_messages })
taken pair _ s = (none, s)

unfoldable pub receive_pair : String → DhtPeer → Option Envelope × DhtPeer
receive_pair pair s = taken pair (lookup pair s.sync_messages) s

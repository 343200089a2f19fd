-- ===== src/Peer/Route.antt =====
-- `RouteEnvelope`, `HandleAeaEnvelope` and `slowEnvelopeSendLoop`. The wait until the agent is ready is left out.
pub mod Laws
pub mod SlowQueue
use open_acn.Base.{
  String, ℕ, suc, ◌-◌, Bool, true, false, not, ◌&&◌, Option, none, some, List, [], ◌∷◌, ◌++◌,
  length, Except, done, fail, Err, msg, Result, ok, err, panic, Exec, pure, raise, lift, attempt,
  ◌>>=◌, ◌>>◌, if◌then◌else◌, ◌=ˢ◌, leb,
}
use open_acn.Base.GoMap.{GoMap, lookup}
use open_acn.Wire.Word.{Bytes}
use open_acn.Wire.Conn.{Conn}
use open_acn.Wire.Frame.{write_bytes_conn}
use open_acn.Acn.Message.{
  AgentRecord, Envelope, StatusCode, error_decode, error_agent_not_ready,
  error_unknown_agent_address,
}
use open_acn.Acn.Protocol.{AcnError}
use open_acn.Aea.Handle.{make_acn_message_from_envelope}
use open_acn.Mailbox.State.{MailboxServer, route_envelope}
use open_acn.Peer.State.{ConnRef, DhtPeer, Environment, gets, modify, on_delegate, await_acn_status}
use open_acn.Peer.Records.{get_envelope_acn_record}
use open_acn.Peer.Streams.{route_envelope_with_new_stream, route_envelope_dht_lookup}
use open_acn.Peer.Requests.{unknown_agent_address}

abbrev pub slow_queue_size : ℕ
slow_queue_size = 100

-- The slow queue drops an envelope once it holds one fewer than its size.
unfoldable pub move_to_slow_queue : Envelope → DhtPeer → DhtPeer
move_to_slow_queue envel s =
    if s.is_closing
    then s
    else if leb (slow_queue_size - 1) (length s.slow_queue)
    then s
    else record s { slow_queue = s.slow_queue ++ (envel ∷ []) }

abbrev pub store_mailbox : DhtPeer → Bool × MailboxServer → Result Bool × DhtPeer
store_mailbox s (taken, m) = (ok taken, record s { mailbox_server = some m })

abbrev pub try_mailbox : Envelope → Option MailboxServer → Exec DhtPeer Bool
try_mailbox envel none s = (ok false, s)
try_mailbox envel (some m) s = store_mailbox s (route_envelope envel m)

-- `mailboxServer != nil && mailboxServer.RouteEnvelope(envel)`
unfoldable pub route_to_mailbox : Envelope → Exec DhtPeer Bool
route_to_mailbox envel s = try_mailbox envel s.mailbox_server s

module _ (env : Environment) (envel : Envelope) where
  abbrev pub to_agent : Exec DhtPeer (Unit {0})
  to_agent = elim env.process_envelope [ none ↦ raise (msg "Agent not ready") | some f ↦ f envel ]

  abbrev pub to_delegate : ConnRef → Exec DhtPeer (Unit {0})
  to_delegate conn_delegate = do
    data_sent ← lift (make_acn_message_from_envelope env.messages env.envelopes envel)
    on_delegate conn_delegate (write_bytes_conn data_sent)
    await_acn_status env envel.to

  -- An envelope that the DHT lookup could not deliver is not an error of `RouteEnvelope`.
  abbrev pub looked_up : Except (Unit {0}) → Exec DhtPeer (Unit {0})
  looked_up (done _) = pure tt
  looked_up (fail e) = modify (move_to_slow_queue envel)

  abbrev pub to_peer : Option AgentRecord → Option String → Exec DhtPeer (Unit {0})
  to_peer envel_rec (some peer_id) = do
    id ← lift (env.decode_peer_id peer_id)
    route_envelope_with_new_stream env envel_rec envel id
  to_peer envel_rec none = do r ← attempt (route_envelope_dht_lookup env envel); looked_up r

  abbrev pub to_client : Option AgentRecord → Option ConnRef → Exec DhtPeer (Unit {0})
  to_client envel_rec (some conn_delegate) = to_delegate conn_delegate
  to_client envel_rec none = do
    peer_id ← gets (λ s. lookup envel.to s.dht_addresses)
    to_peer envel_rec peer_id

  -- What follows the mailbox.
  abbrev pub past_mailbox : Option AgentRecord → Option ConnRef → Bool → Exec DhtPeer (Unit {0})
  past_mailbox envel_rec conn_delegate true = pure tt
  past_mailbox envel_rec conn_delegate false = do
    mine ← gets (λ s. envel.to =ˢ s.my_agent_address)
    if mine then to_agent else to_client envel_rec conn_delegate

  abbrev pub from_sender : Except (Option AgentRecord) → Exec DhtPeer (Unit {0})
  from_sender (fail e) = raise e
  from_sender (done envel_rec) = do
    conn_delegate ← gets (λ s. lookup envel.to s.tcp_addresses)
    taken ← route_to_mailbox envel
    past_mailbox envel_rec conn_delegate taken

  unfoldable pub route_peer_envelope : Exec DhtPeer (Unit {0})
  route_peer_envelope s = from_sender (get_envelope_acn_record s envel) s

  -- `HandleAeaEnvelope` returns nil or an `*ACNError`.
  abbrev pub refusal : String → StatusCode → Option AcnError
  refusal text code = some (record { error_code = code; cause = msg text })

  abbrev pub acknowledged : Except (Unit {0}) → Exec DhtPeer (Option AcnError)
  acknowledged (done _) = pure none
  acknowledged (fail e) =
      pure (refusal "while awating acn ack on sending  envelope to tcp clien" error_agent_not_ready)

  abbrev pub written : Except (Unit {0}) → Exec DhtPeer (Option AcnError)
  written (fail e) = pure (refusal "agent is not ready" error_agent_not_ready)
  written (done _) = do r ← attempt (await_acn_status env envel.to); acknowledged r

  abbrev pub encoded : ConnRef → Except Bytes → Exec DhtPeer (Option AcnError)
  encoded conn_delegate (fail e) = pure (refusal "serializing envelope error" error_decode)
  encoded conn_delegate (done data_sent) = do
    r ← attempt (on_delegate conn_delegate (write_bytes_conn data_sent))
    written r

  abbrev pub delivered_locally :
      Option (Envelope → Exec DhtPeer (Unit {0})) → Exec DhtPeer (Option AcnError)
  delivered_locally none = pure (refusal "agent is not ready" error_agent_not_ready)
  delivered_locally (some f) = do r ← attempt (f envel); pure none

  abbrev pub without_mailbox : Option ConnRef → Bool → Exec DhtPeer (Option AcnError)
  without_mailbox conn_delegate true = pure none
  without_mailbox (some conn_delegate) false =
      encoded conn_delegate (make_acn_message_from_envelope env.messages env.envelopes envel)
  without_mailbox none false = do
    mine ← gets (λ s. envel.to =ˢ s.my_agent_address)
    if mine then delivered_locally env.process_envelope else pure (some unknown_agent_address)

  unfoldable pub handle_aea_envelope : Exec DhtPeer (Option AcnError)
  handle_aea_envelope = do
    conn_delegate ← gets (λ s. lookup envel.to s.tcp_addresses)
    taken ← route_to_mailbox envel
    without_mailbox conn_delegate taken

-- How a round of `slowEnvelopeSendLoop` ends: it waits for an envelope, goes on, or returns.
pub data SlowRound : Type 0 where
  waits goes_on returns : SlowRound

module _ (env : Environment) where
  -- An error is logged; the next round begins in any case.
  abbrev pub slow_envelope : Envelope → Bool → Exec DhtPeer SlowRound
  slow_envelope envel true = pure returns
  slow_envelope envel false = do r ← attempt (route_envelope_dht_lookup env envel); pure goes_on

  -- `Close` sets the flag and then closes the channel.
  abbrev pub slow_queued : List Envelope → Exec DhtPeer SlowRound
  slow_queued [] = do closed ← gets (λ s. s.is_closing); pure (if closed then returns else waits)
  slow_queued (envel ∷ rest) = do
    modify (λ s. record s { slow_queue = rest })
    closing ← gets (λ s. s.is_closing)
    slow_envelope envel closing

  unfoldable pub slow_envelope_round : Exec DhtPeer SlowRound
  slow_envelope_round s = slow_queued s.slow_queue s

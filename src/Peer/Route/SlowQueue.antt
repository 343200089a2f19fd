-- ===== src/Peer/Route/SlowQueue.antt =====
-- The length of the slow queue under `RouteEnvelope`.
use open_acn.Base.{
  ap, inl, inr, String, ◌≤◌, ◌≡◌, Bool, true, false, Option, none, some, List, [], ◌∷◌, ◌++◌,
  length, length-append, Except, done, fail, msg, ok, err, Exec, pure, raise, lift, attempt, ◌>>=◌,
  if◌then◌else◌, ◌=ˢ◌, leb, arith, refl, Bool-cases, if_both,
}
use open_acn.Base.Stable.{
  Stable, result-Stable, lift-Stable, deref-Stable, bind-Stable, attempt-Stable,
}
use open_acn.Base.GoMap.{lookup}
use open_acn.Wire.Word.{Bytes}
use open_acn.Wire.Conn.{Conn}
use open_acn.Wire.Frame.{write_bytes_conn}
use open_acn.Acn.Message.{AgentRecord, Envelope}
use open_acn.Aea.Handle.{make_acn_message_from_envelope}
use open_acn.Mailbox.State.{MailboxServer}
use open_acn.Peer.State.{ConnRef, on_open, DhtPeer, Environment, await_acn_status, on_delegate}
use open_acn.Peer.Records.{get_envelope_acn_record}
use open_acn.Acn.Message.{StatusBody, is_success}
use open_acn.Acn.Protocol.{Received, arrived, timed_out}
use open_acn.Acn.Protocol.Receive.{wait_result, wait_for_status}
use open_acn.Peer.State.{take_status, select_status}
use open_acn.Base.{deref}
use open_acn.Peer.Streams.{route_envelope_with_new_stream, route_envelope_dht_lookup}
use open_acn.Peer.Streams.Same.{route_envelope_with_new_stream_same, route_envelope_dht_lookup_same}
use open_acn.Peer.Route.{
  slow_envelope, slow_queued, slow_envelope_round, goes_on, try_mailbox, from_sender,
  route_to_mailbox, route_peer_envelope, move_to_slow_queue, to_agent, to_delegate, looked_up,
  to_peer, to_client, past_mailbox,
}

pub record HasRoom (s : DhtPeer) : Type 0 where
  pub room : length s.slow_queue ≤ 99

-- The agent keeps the bound.
pub record KeepsRoom (env : Environment) : Type 0 where
  pub agent :
      (f : Envelope → Exec DhtPeer (Unit {0})) (e : Envelope)
      → env.process_envelope ≡ some f
      → Stable HasRoom (f e)

-- An action that leaves the slow queue as it is.
same-HasRoom :
    {A : Type 0} (m : Exec DhtPeer A)
    → ((s : DhtPeer) → (m s).1.slow_queue ≡ s.slow_queue)
    → Stable HasRoom m
same-HasRoom m h = record { stable = λ s r. record { room = rw (h s) r.room } }

appended_room :
    (q : List Envelope) (e : Envelope) → leb 99 (length q) ≡ false → length (q ++ (e ∷ [])) ≤ 99
appended_room q e free = rw (length-append) (ground arith)

moved-HasRoom : (e : Envelope) (s : DhtPeer) → HasRoom s → HasRoom (move_to_slow_queue e s)
unfolding move_to_slow_queue
moved-HasRoom e s h =
    if_both HasRoom s.is_closing s _ h (elim (Bool-cases (leb 99 (length s.slow_queue))) [
      | inl full ↦ rw (full) h
      | inr free ↦ rw (free) (record { room = appended_room s.slow_queue e free })
    ])

mailbox-HasRoom : (e : Envelope) → Stable HasRoom (route_to_mailbox e)
unfolding route_to_mailbox
mailbox-HasRoom e = record { stable = λ s h. go s h s.mailbox_server }
  where
    go : (s : DhtPeer) → HasRoom s → (o : Option MailboxServer) → HasRoom (try_mailbox e o s).1
    go s h none = h
    go s h (some m) = record { room = h.room }

delegate-HasRoom : {A : Type 0} (c : ConnRef) (m : Exec Conn A) → Stable HasRoom (on_delegate c m)
delegate-HasRoom {A} c m = record { stable = λ s h. go s h (lookup c s.connections) }
  where
    go : (s : DhtPeer) → HasRoom s → (o : Option Conn) → HasRoom (on_open c m o s).1
    go s h none = h
    go s h (some x) = record { room = h.room }

module _ (env : Environment) (k : KeepsRoom env) where
  take-HasRoom :
      (addr : String) (o : Option (List StatusBody)) → Stable HasRoom (take_status env addr o)
  take-HasRoom addr none = result-Stable HasRoom _
  take-HasRoom addr (some []) = result-Stable HasRoom _
  take-HasRoom addr (some (b ∷ rest)) = record { stable = λ s h. record { room = h.room } }

  wait-HasRoom : (m : Received) → Stable HasRoom (wait_result m)
  wait-HasRoom (arrived b) = result-Stable HasRoom _
  wait-HasRoom timed_out = result-Stable HasRoom _

  status-HasRoom : (addr : String) → Stable HasRoom (await_acn_status env addr)
  unfolding await_acn_status wait_for_status
  status-HasRoom addr =
      bind-Stable HasRoom (wait_for_status (select_status env addr)) checked
        (bind-Stable HasRoom (select_status env addr) wait_result
          (record { stable = λ s h. (take-HasRoom addr (lookup addr s.acn_statuses)).stable s h })
          wait-HasRoom)
        (λ status.
          bind-Stable HasRoom (deref status) code_tested (deref-Stable HasRoom status) (λ b.
            if_both (Stable HasRoom) (is_success b.code) (pure tt) (raise (msg "bad status!"))
              (result-Stable HasRoom (ok tt)) (result-Stable HasRoom (err (msg "bad status!")))))
    where
      code_tested : StatusBody → Exec DhtPeer (Unit {0})
      code_tested b = if is_success b.code then pure tt else raise (msg "bad status!")

      checked : Option StatusBody → Exec DhtPeer (Unit {0})
      checked status = deref status >>= code_tested

  module _ (e : Envelope) where
    agent-HasRoom :
        (o : Option (Envelope → Exec DhtPeer (Unit {0})))
        → env.process_envelope ≡ o
        → Stable HasRoom (to_agent env e)
    agent-HasRoom none p = rw (p) (result-Stable HasRoom _)
    agent-HasRoom (some f) p = rw (p) (k.agent f e p)

    delegated-HasRoom : (c : ConnRef) → Stable HasRoom (to_delegate env e c)
    delegated-HasRoom c =
        bind-Stable HasRoom (lift acn_message) sent (lift-Stable HasRoom acn_message) (λ b.
          bind-Stable HasRoom (on_delegate c (write_bytes_conn b)) (λ _. await_acn_status env e.to)
            (delegate-HasRoom c (write_bytes_conn b)) (λ _. status-HasRoom e.to))
      where
        acn_message : Except Bytes
        acn_message = make_acn_message_from_envelope env.messages env.envelopes e

        sent : Bytes → Exec DhtPeer (Unit {0})
        sent b = on_delegate c (write_bytes_conn b) >>= λ _. await_acn_status env e.to

    looked_up-HasRoom : (x : Except (Unit {0})) → Stable HasRoom (looked_up env e x)
    looked_up-HasRoom (done a) = result-Stable HasRoom _
    looked_up-HasRoom (fail y) = record { stable = λ s h. moved-HasRoom e s h }

    peer-HasRoom : (r : Option AgentRecord) (o : Option String) → Stable HasRoom (to_peer env e r o)
    peer-HasRoom r (some p) =
        bind-Stable HasRoom (lift (env.decode_peer_id p))
          (λ id. route_envelope_with_new_stream env r e id)
          (lift-Stable HasRoom (env.decode_peer_id p))
          (λ id.
            same-HasRoom (route_envelope_with_new_stream env r e id)
              (λ s. ap (λ t. t.slow_queue) (route_envelope_with_new_stream_same env r e id s)))
    peer-HasRoom r none =
        bind-Stable HasRoom (attempt (route_envelope_dht_lookup env e)) (looked_up env e)
          (attempt-Stable HasRoom (route_envelope_dht_lookup env e) (
            same-HasRoom (route_envelope_dht_lookup env e)
              (λ s. ap (λ t. t.slow_queue) (route_envelope_dht_lookup_same env e s))))
          looked_up-HasRoom

    client-HasRoom :
        (r : Option AgentRecord) (o : Option ConnRef) → Stable HasRoom (to_client env e r o)
    client-HasRoom r (some c) = delegated-HasRoom c
    client-HasRoom r none = record {
      stable = λ s h. (peer-HasRoom r (lookup e.to s.dht_addresses)).stable s h;
    }

    past_mailbox-HasRoom :
        (r : Option AgentRecord) (o : Option ConnRef) (taken : Bool)
        → Stable HasRoom (past_mailbox env e r o taken)
    past_mailbox-HasRoom r o true = result-Stable HasRoom _
    past_mailbox-HasRoom r o false = record { stable = λ s h. go s h (e.to =ˢ s.my_agent_address) }
      where
        go :
            (s : DhtPeer)
            → HasRoom s
            → (mine : Bool) → HasRoom ((if mine then to_agent env e else to_client env e r o) s).1
        go s h true = (agent-HasRoom env.process_envelope refl).stable s h
        go s h false = (client-HasRoom r o).stable s h

    sender-HasRoom : (x : Except (Option AgentRecord)) → Stable HasRoom (from_sender env e x)
    sender-HasRoom (fail y) = result-Stable HasRoom _
    sender-HasRoom (done r) = record {
      stable = λ s h.
          (bind-Stable HasRoom (route_to_mailbox e)
              (past_mailbox env e r (lookup e.to s.tcp_addresses)) (mailbox-HasRoom e)
              (past_mailbox-HasRoom r (lookup e.to s.tcp_addresses))).stable
            s h;
    }

  slow_envelope-HasRoom : (e : Envelope) (b : Bool) → Stable HasRoom (slow_envelope env e b)
  slow_envelope-HasRoom e true = result-Stable HasRoom _
  slow_envelope-HasRoom e false =
      bind-Stable HasRoom (attempt (route_envelope_dht_lookup env e)) (λ _. pure goes_on)
        (attempt-Stable HasRoom (route_envelope_dht_lookup env e) (
          same-HasRoom (route_envelope_dht_lookup env e)
            (λ s. ap (λ t. t.slow_queue) (route_envelope_dht_lookup_same env e s))))
        (λ _. result-Stable HasRoom _)

  slow_round-HasRoom :
      (s : DhtPeer) (q : List Envelope)
      → length q ≤ 99
      → HasRoom s
      → HasRoom (slow_queued env q s).1
  slow_round-HasRoom s [] room h = h
  slow_round-HasRoom s (e ∷ rest) room h =
      (slow_envelope-HasRoom e s.is_closing).stable (record s { slow_queue = rest })
        (record { room = omega (arith, room) })

  -- Whatever the outcome of `RouteEnvelope`, and of a round of `slowEnvelopeSendLoop`, the slow queue
  -- holds at most 99 envelopes, one fewer than its channel has room for, if it did before and the
  -- agent keeps it so.
  pub route_peer_envelope-HasRoom :
      (e : Envelope) (s : DhtPeer)
      → HasRoom s
      → HasRoom (route_peer_envelope env e s).1 × HasRoom (slow_envelope_round env s).1
  unfolding route_peer_envelope slow_envelope_round
  route_peer_envelope-HasRoom e s h = (
    (sender-HasRoom e (get_envelope_acn_record s e)).stable s h,
    slow_round-HasRoom s s.slow_queue h.room h,
  )

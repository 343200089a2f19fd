-- ===== src/Peer/Delegate/Queues.antt =====
-- The channels between the connections of delegate clients and the routing of their envelopes.
use open_acn.Base.{
  String, ◌≡◌, ◌≤◌, sym, refl, Bool, true, false, Option, none, some, List, [], ◌∷◌, ◌++◌, length,
  length-append, leb, Except, done, fail, ok, Exec, pure, attempt, ◌>>◌, if◌then◌else◌, if_both,
  ◌=ˢ◌, arith, Bool-cases, inl, inr, eq_iff, ◌∙◌,
}
use mathlib.Core.Path.{subst}
use mathlib.Core.Option.{some-injective}
use open_acn.Base.GoMap.{GoMap, lookup, insert, has, lookup-insert}
use open_acn.Base.Stable.{Stable, result-Stable, bind-Stable, attempt-Stable}
use open_acn.Wire.Conn.{Conn}
use open_acn.Wire.Frame.{read_bytes_conn, write_bytes_conn}
use open_acn.Acn.Message.{AgentRecord, StatusBody, Envelope}
use open_acn.Aea.Handle.{handle_acn_message_from_pipe}
use open_acn.Aea.Handle.Stable.{handle_acn_message_from_pipe-Stable}
use open_acn.Peer.State.{ConnRef, DhtPeer, Environment, on_open, on_delegate}
use open_acn.Peer.Delegate.{
  Waiting, ready, on_full, for_ever, Session, on_peer, session_pipe, put_status,
  add_acn_status_message, status_queue, pair_of, channel, offer, queue_envelope, on_session,
  from_client, handled, next_message, delegate_round,
}

-- The envelopes of one channel: they are of that pair, and the peer has a record of each sender.
abbrev pub AllOfPair : String → GoMap AgentRecord → List Envelope → Type 0
AllOfPair pair records [] = Unit {0}
AllOfPair pair records (e ∷ queue) =
    (pair_of e ≡ pair) × (has e.sender records ≡ true) × AllOfPair pair records queue

pub record QueuesValid (s : DhtPeer) : Type 0 where
  pub valid :
      (pair : String) (queue : List Envelope)
      → lookup pair s.sync_messages ≡ some queue
      → (length queue ≤ 1000) × AllOfPair pair s.agent_records queue

-- What a round of the client with an address needs and keeps.
abbrev pub RoundValid : String → Session → Type 0
RoundValid addr s = (has addr s.node.agent_records ≡ true) × QueuesValid s.node

append-AllOfPair :
    (pair : String) (records : GoMap AgentRecord) (queue : List Envelope) (e : Envelope)
    → AllOfPair pair records queue
    → pair_of e ≡ pair
    → has e.sender records ≡ true
    → AllOfPair pair records (queue ++ (e ∷ []))
append-AllOfPair pair records [] e h p q = (p, q, tt)
append-AllOfPair pair records (x ∷ queue) e (a, b, h) p q =
    (a, b, append-AllOfPair pair records queue e h p q)

offer-valid :
    (records : GoMap AgentRecord) (queue : List Envelope) (e : Envelope)
    → (length queue ≤ 1000) × AllOfPair (pair_of e) records queue
    → has e.sender records ≡ true
    → (length (offer e queue) ≤ 1000) × AllOfPair (pair_of e) records (offer e queue)
offer-valid records queue e (room, all) q = elim (Bool-cases (leb 1000 (length queue))) [
  | inl full ↦ rw (full) (room, all)
  | inr free ↦
      rw (free) (appended_room free, append-AllOfPair (pair_of e) records queue e all refl q)
]
  where
    appended_room : leb 1000 (length queue) ≡ false → length (queue ++ (e ∷ [])) ≤ 1000
    appended_room free = rw (length-append) (ground arith)

queue_envelope-QueuesValid :
    (e : Envelope) (s : DhtPeer)
    → QueuesValid s
    → has e.sender s.agent_records ≡ true
    → QueuesValid (queue_envelope e s)
unfolding queue_envelope
queue_envelope-QueuesValid e s h q = record { valid = λ pair queue p. go pair queue p }
  where
    old :
        (o : Option (List Envelope))
        → lookup (pair_of e) s.sync_messages ≡ o
        → (length (channel o) ≤ 1000) × AllOfPair (pair_of e) s.agent_records (channel o)
    old none p = (omega arith, tt)
    old (some queue) p = h.valid (pair_of e) queue p

    new :
        (length (offer e (channel (lookup (pair_of e) s.sync_messages))) ≤ 1000)
        × AllOfPair
            (pair_of e)
            s.agent_records
            (offer e (channel (lookup (pair_of e) s.sync_messages)))
    new =
        offer-valid s.agent_records (channel (lookup (pair_of e) s.sync_messages)) e
          (old (lookup (pair_of e) s.sync_messages) refl) q

    go :
        (pair : String) (queue : List Envelope)
        → lookup pair (
            insert
              (pair_of e)
              (offer e (channel (lookup (pair_of e) s.sync_messages)))
              s.sync_messages)
          ≡ some queue
        → (length queue ≤ 1000) × AllOfPair pair s.agent_records queue
    go pair queue p = split (pair_of e =ˢ pair) refl (
        sym (
          lookup-insert (pair_of e) pair (offer e (channel (lookup (pair_of e) s.sync_messages)))
            s.sync_messages)
        ∙ p)
      where
        split :
            (b : Bool)
            → (pair_of e =ˢ pair) ≡ b
            → (if b
                then some (offer e (channel (lookup (pair_of e) s.sync_messages)))
                else lookup pair s.sync_messages)
              ≡ some queue
            → (length queue ≤ 1000) × AllOfPair pair s.agent_records queue
        split true k u =
            subst (λ x. (length queue ≤ 1000) × AllOfPair x s.agent_records queue)
              ((eq_iff (pair_of e) pair).0 k)
              (subst (λ x. (length x ≤ 1000) × AllOfPair (pair_of e) s.agent_records x)
                (some-injective _ _ u) new)
        split false k u = h.valid pair queue u

module _ (env : Environment) (conn : ConnRef) (addr : String) where
  delegate-Stable :
      {A : Type 0} (m : Exec Conn A) → Stable (RoundValid addr) (on_peer (on_delegate conn m))
  delegate-Stable {A} m = record { stable = λ s h. go s h (lookup conn s.node.connections) }
    where
      go :
          (s : Session)
          → RoundValid addr s
          → (o : Option Conn) → RoundValid addr (record s { node = (on_open conn m o s.node).1 })
      go s h none = h
      go s (k, h) (some c) = (k, record { valid = h.valid })

  adds-Stable : (b : StatusBody) → Stable (RoundValid addr) (add_acn_status_message b addr)
  unfolding add_acn_status_message
  adds-Stable b = record { stable = λ s h. go s h (lookup addr s.node.acn_statuses) }
    where
      go :
          (s : Session)
          → RoundValid addr s
          → (o : Option (List StatusBody)) → RoundValid addr (put_status b addr o s)
      go s h none = h
      go s (k, h) (some queue) =
          if_both (RoundValid addr) (leb 1000 (length queue)) _ _ (k, h)
            (k, record { valid = h.valid })

  from_client-Stable : (e : Envelope) → Stable (RoundValid addr) (from_client env conn addr e)
  unfolding queue_envelope
  from_client-Stable e = record { stable = λ s h. go s h (e.sender =ˢ addr) refl }
    where
      go :
          (s : Session)
          → RoundValid addr s
          → (b : Bool) → (e.sender =ˢ addr) ≡ b
          → RoundValid addr
              ((if b then (on_session env conn addr (queue_envelope e) >> pure true) else pure true)
                s).1
      go s (k, h) true p = (
        k,
        queue_envelope-QueuesValid e s.node h
            (subst (λ a. has a s.node.agent_records ≡ true) (sym ((eq_iff e.sender addr).0 p)) k),
      )
      go s h false p = h

  handled-Stable :
      (x : Except (Option Envelope)) → Stable (RoundValid addr) (handled env conn addr x)
  handled-Stable (fail e) = record { stable = λ s h. (h.0, record { valid = h.1.valid }) }
  handled-Stable (done none) = result-Stable (RoundValid addr) (ok true)
  handled-Stable (done (some e)) = from_client-Stable e

  next_message-Stable : (o : Waiting) → Stable (RoundValid addr) (next_message env conn addr o)
  next_message-Stable for_ever = result-Stable (RoundValid addr) (ok true)
  next_message-Stable (on_full b) =
      bind-Stable (RoundValid addr) (add_acn_status_message b addr) (λ _. pure true) (adds-Stable b)
        (λ _. result-Stable (RoundValid addr) (ok true))
  next_message-Stable ready =
      bind-Stable (RoundValid addr) (attempt message) (handled env conn addr)
        (attempt-Stable (RoundValid addr) message (
          handle_acn_message_from_pipe-Stable env.messages env.envelopes (RoundValid addr)
            (session_pipe conn) status_queue (λ b. delegate-Stable (write_bytes_conn b)) addr
            adds-Stable (delegate-Stable read_bytes_conn)))
        handled-Stable
    where
      message : Exec Session (Option Envelope)
      message =
          handle_acn_message_from_pipe env.messages env.envelopes (session_pipe conn) status_queue
            addr

  -- However a round of the loop of a delegate client ends, every channel of a pair holds at most 1000
  -- envelopes, all of that pair and from senders of which the peer has a record, if it was so before
  -- and the peer has a record of the client.
  pub delegate_round-RoundValid :
      (s : Session) → RoundValid addr s → RoundValid addr (delegate_round env conn addr s).1
  unfolding delegate_round
  delegate_round-RoundValid s h = (next_message-Stable s.waiting).stable s h

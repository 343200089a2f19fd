-- ===== src/Mailbox/State/Invariant.antt =====
-- The invariant of the mailbox, for each operation and for runs of them.
use open_acn.Mailbox.State.Refinement.{
  Event, routed, fetched, registered, unregistered, step, after,
}
use open_acn.Base.{
  is_empty, drop, sym, ap, inr, ◌∙◌, inl, ◌=ˢ◌, Option-cases, Bool-cases, String, ℕ, ◌≤◌, ◌≡◌, true,
  false, Option, none, some, List, [], ◌∷◌, ◌++◌, length, arith, eq_iff, length-append, refl,
}
use open_acn.Base.GoMap.{lookup, insert, is_some, lookup-insert, lookup-delete}
use open_acn.Wire.Word.{Bytes}
use open_acn.Acn.Message.{AgentRecord, Envelope}
use open_acn.Mailbox.State.{
  is_full, MailboxServer, start, register, unregister, remove_first, queue_of, route_envelope,
  is_addr_registered,
}

pub record IsValid (m : MailboxServer) : Type 0 where
  pub limit : m.envelopes_limit ≡ 1000
  pub same_keys : (a : String) → is_some (lookup a m.agent_records) ≡ is_some (lookup a m.envelopes)
  pub bounded : (a : String) (q : List Envelope) → lookup a m.envelopes ≡ some q → length q ≤ 1000

pub start-IsValid : (signature : Bytes) → IsValid (start signature)
start-IsValid signature = record {
  limit = refl;
  same_keys = λ a. unfold lookup in refl;
  bounded = λ a q e. unfold lookup in cc;
}

pub register-IsValid :
    (uuid : String) (r : AgentRecord) (m : MailboxServer) → IsValid m → IsValid (register uuid r m)
unfolding register
register-IsValid uuid r m v = record {
  limit = v.limit;
  same_keys = λ a. rw (lookup-insert, lookup-insert) (ground (arith, v.same_keys a));
  bounded = λ a q e. ground (arith, lookup-insert r.address a [] m.envelopes, v.bounded a q);
}

pub unregister-IsValid :
    (session_id addr : String) (m : MailboxServer)
    → IsValid m
    → IsValid (unregister session_id addr m)
unfolding unregister
unregister-IsValid session_id addr m v = record {
  limit = v.limit;
  same_keys = λ a. rw (lookup-delete, lookup-delete) (ground (arith, v.same_keys a));
  bounded = λ a q e. ground (arith, lookup-delete addr a m.envelopes, v.bounded a q);
}

-- Writing one queue that is not longer than the limit, at an address that has a queue.
set_queue-IsValid :
    (addr : String) (q : List Envelope) (m : MailboxServer)
    → is_some (lookup addr m.envelopes) ≡ true
    → length q ≤ 1000
    → IsValid m
    → IsValid (record m { envelopes = insert addr q m.envelopes })
set_queue-IsValid addr q m h short v = record {
  limit = v.limit;
  same_keys = λ a. rw (lookup-insert) (elim (Bool-cases (addr =ˢ a)) [
    | inl e ↦
        (v.same_keys a ∙ ap (λ b. is_some (lookup b m.envelopes)) (sym ((eq_iff addr a).0 e)) ∙ h)
        ∙ sym (rw (e) refl)
    | inr e ↦ rw (e) (v.same_keys a)
  ]);
  bounded = λ a p e. ground (arith, lookup-insert addr a q m.envelopes, v.bounded a p);
}

-- A queue that is not full has room for one more.
appended_short :
    (q : List Envelope) (e : Envelope) (limit : ℕ)
    → limit ≡ 1000
    → is_full q limit ≡ false
    → length (q ++ (e ∷ [])) ≤ 1000
appended_short q e limit h free = rw (length-append) (ground arith)

pub route_envelope-IsValid :
    (e : Envelope) (m : MailboxServer) → IsValid m → IsValid (route_envelope e m).1
unfolding route_envelope
route_envelope-IsValid e m v = elim (Option-cases (lookup e.to m.envelopes)) [
  | inl p ↦ rw (route_envelope, p) v
  | inr (q, p) ↦
      rw (route_envelope, p)
        (elim (Bool-cases (is_full q m.envelopes_limit)) [
          | inl full ↦ rw (full) v
          | inr free ↦
              rw (free)
                (set_queue-IsValid e.to _ m (rw (p) refl) (appended_short q e _ v.limit free) v)
        ])
]

rest_short :
    (addr : String) (m : MailboxServer) → IsValid m → length (drop 1 (queue_of addr m)) ≤ 1000
rest_short addr m v = go (lookup addr m.envelopes) refl
  where
    go :
        (o : Option (List Envelope))
        → lookup addr m.envelopes ≡ o
        → length (drop 1 (elim o [ none ↦ [] | some q ↦ q ])) ≤ 1000
    go none p = ground arith
    go (some []) p = ground arith
    go (some (x ∷ q)) p = ground (arith, v.bounded addr (x ∷ q) p)

-- Taking the first envelope, from an address that has a queue.
pub remove_first-IsValid :
    (addr : String) (m : MailboxServer)
    → is_addr_registered addr m ≡ true
    → IsValid m
    → IsValid (remove_first addr m)
unfolding remove_first is_addr_registered
remove_first-IsValid addr m h v = set_queue-IsValid addr _ m h (rest_short addr m v) v

waiting :
    (a : String) (m : MailboxServer)
    → is_empty (queue_of a m) ≡ false
    → is_addr_registered a m ≡ true
unfolding is_addr_registered
waiting a m h = ground (arith, h)

fetched-IsValid : (a : String) (m : MailboxServer) → IsValid m → IsValid (step (fetched a) m)
unfolding step
fetched-IsValid a m v = elim (Bool-cases (is_empty (queue_of a m))) [
  | inl e ↦ rw (step, e) v
  | inr ne ↦ rw (step, ne) (remove_first-IsValid a m (waiting a m ne) v)
]

step-IsValid : (ev : Event) (m : MailboxServer) → IsValid m → IsValid (step ev m)
unfolding step
step-IsValid (routed e) m v = route_envelope-IsValid e m v
step-IsValid (fetched a) m v = fetched-IsValid a m v
step-IsValid (registered uuid r) m v = register-IsValid uuid r m v
step-IsValid (unregistered session_id a) m v = unregister-IsValid session_id a m v

keeps : (events : List Event) (m : MailboxServer) → IsValid m → IsValid (after events m)
unfolding after
keeps [] m v = v
keeps (ev ∷ events) m v = keeps events (step ev m) (step-IsValid ev m v)

-- After any events from the start, the registered addresses are those that have a record, and no
-- queue holds more than 1000 envelopes.
pub after-IsValid :
    (signature : Bytes) (events : List Event) → IsValid (after events (start signature))
after-IsValid signature events = keeps events (start signature) (start-IsValid signature)

-- ===== src/Mailbox/State/View.antt =====
-- The mailbox as what its maps answer: the order in which a map holds its entries is forgotten, as Go's
-- maps have none. What an event does to one answer, and events that do not meet.
use mathlib.Core.Quot
use mathlib.Core.Quot.{Quot, Quot-set}
use open_acn.Base.{
  String, ℕ, Bool, true, false, Option, none, some, List, [], ◌∷◌, ◌++◌, take, drop, if◌then◌else◌,
  ◌=ˢ◌, ◌≡◌, refl, sym, ap, ◌∙◌, inl, inr, arith, eq_iff, Bool-cases,
}
use open_acn.Base.GoMap.{lookup, lookup-insert, lookup-delete}
use open_acn.Acn.Message.{AgentRecord, Envelope}
use open_acn.Mailbox.State.{
  MailboxServer, is_full, register, unregister, remove_first, queue_of, route_envelope,
}
use open_acn.Mailbox.State.Refinement.{Event, routed, fetched, registered, unregistered, step}

-- The same answers to every lookup.
pub record SameMailbox (m n : MailboxServer) : Type 0 where
  pub sessions : (k : String) → lookup k m.sessions ≡ lookup k n.sessions
  pub records : (a : String) → lookup a m.agent_records ≡ lookup a n.agent_records
  pub queues : (a : String) → lookup a m.envelopes ≡ lookup a n.envelopes
  pub limit : m.envelopes_limit ≡ n.envelopes_limit
  pub signature : m.signature ≡ n.signature

abbrev pub View : Type 0
View = Quot SameMailbox

-- Where an event acts: one address, and at most one session.
abbrev pub address_of : Event → String
address_of (routed e) = e.to
address_of (fetched a) = a
address_of (registered uuid r) = r.address
address_of (unregistered session_id a) = a

abbrev pub session_of : Event → Option String
session_of (registered uuid r) = some uuid
session_of (unregistered session_id a) = some session_id
session_of _ = none

-- What it makes of the answers there.
abbrev queue_change : Event → ℕ → Option (List Envelope) → Option (List Envelope)
queue_change (routed e) limit none = none
queue_change (routed e) limit (some q) = if is_full q limit then some q else some (q ++ (e ∷ []))
queue_change (fetched a) limit none = none
queue_change (fetched a) limit (some q) = some (drop 1 q)
queue_change (registered uuid r) limit o = some []
queue_change (unregistered session_id a) limit o = none

abbrev record_change : Event → Option AgentRecord → Option AgentRecord
record_change (registered uuid r) o = some r
record_change (unregistered session_id a) o = none
record_change _ o = o

abbrev session_change : Event → Option String → Option String
session_change (registered uuid r) o = some r.address
session_change _ o = none

abbrev at_session : {A : Type 0} → Option String → String → (A → A) → A → A
at_session none k f o = o
at_session (some s) k f o = if s =ˢ k then f o else o

routed-queue :
    (e : Envelope) (a : String) (m : MailboxServer)
    → lookup a (route_envelope e m).1.envelopes ≡ (
        if e.to =ˢ a
        then queue_change (routed e) m.envelopes_limit (lookup a m.envelopes)
        else lookup a m.envelopes)
unfolding route_envelope
routed-queue e a m = elim (Bool-cases (e.to =ˢ a)) [
  | inl same ↦ ground (
    arith,
    (eq_iff e.to a).0 same,
    lookup-insert e.to a (queue_of e.to m ++ (e ∷ [])) m.envelopes,
  )
  | inr other ↦
      ground (arith, other, lookup-insert e.to a (queue_of e.to m ++ (e ∷ [])) m.envelopes)
]

fetched-queue :
    (b a : String) (m : MailboxServer)
    → lookup a (step (fetched b) m).envelopes ≡ (
        if b =ˢ a
        then queue_change (fetched b) m.envelopes_limit (lookup a m.envelopes)
        else lookup a m.envelopes)
unfolding step remove_first
fetched-queue b a m = elim (Bool-cases (b =ˢ a)) [
  | inl same ↦
      ground (arith, (eq_iff b a).0 same, lookup-insert b a (drop 1 (queue_of b m)) m.envelopes)
  | inr other ↦ ground (arith, other, lookup-insert b a (drop 1 (queue_of b m)) m.envelopes)
]

step-queue :
    (ev : Event) (a : String) (m : MailboxServer)
    → lookup a (step ev m).envelopes ≡ (
        if address_of ev =ˢ a
        then queue_change ev m.envelopes_limit (lookup a m.envelopes)
        else lookup a m.envelopes)
unfolding step register unregister
step-queue (routed e) a m = routed-queue e a m
step-queue (fetched b) a m = fetched-queue b a m
step-queue (registered uuid r) a m = lookup-insert r.address a [] m.envelopes
step-queue (unregistered session_id b) a m = lookup-delete b a m.envelopes

step-record :
    (ev : Event) (a : String) (m : MailboxServer)
    → lookup a (step ev m).agent_records ≡ (
        if address_of ev =ˢ a
        then record_change ev (lookup a m.agent_records)
        else lookup a m.agent_records)
unfolding step register unregister route_envelope remove_first
step-record (routed e) a m = ground arith
step-record (fetched b) a m = ground arith
step-record (registered uuid r) a m = lookup-insert r.address a r m.agent_records
step-record (unregistered session_id b) a m = lookup-delete b a m.agent_records

step-session :
    (ev : Event) (k : String) (m : MailboxServer)
    → lookup k (step ev m).sessions
      ≡ at_session (session_of ev) k (session_change ev) (lookup k m.sessions)
unfolding step register unregister route_envelope remove_first
step-session (routed e) k m = ground arith
step-session (fetched b) k m = ground arith
step-session (registered uuid r) k m = lookup-insert uuid k r.address m.sessions
step-session (unregistered session_id b) k m = lookup-delete session_id k m.sessions

step-rest :
    (ev : Event) (m : MailboxServer)
    → ((step ev m).envelopes_limit ≡ m.envelopes_limit) × ((step ev m).signature ≡ m.signature)
unfolding step register unregister route_envelope remove_first
step-rest (routed e) m = (ground arith, ground arith)
step-rest (fetched b) m = (ground arith, ground arith)
step-rest (registered uuid r) m = (refl, refl)
step-rest (unregistered session_id b) m = (refl, refl)

pub step-SameMailbox :
    (ev : Event) (m n : MailboxServer) → SameMailbox m n → SameMailbox (step ev m) (step ev n)
step-SameMailbox ev m n same = record {
  sessions = λ k. rw (step-session ev k m, step-session ev k n, same.sessions k) refl;
  records = λ a. rw (step-record ev a m, step-record ev a n, same.records a) refl;
  queues = λ a. rw (step-queue ev a m, step-queue ev a n, same.queues a, same.limit) refl;
  limit = rw ((step-rest ev m).0, (step-rest ev n).0) same.limit;
  signature = rw ((step-rest ev m).1, (step-rest ev n).1) same.signature;
}

unfoldable pub step_view : Event → View → View
step_view ev =
    Quot.lift Quot-set (λ m. Quot.mk (step ev m)) λ m n h. Quot.sound (step-SameMailbox ev m n h)

-- The events act at different addresses, and not in one session.
abbrev pub SessionsApart : Option String → Option String → Type 0
SessionsApart (some s) (some t) = (s =ˢ t) ≡ false
SessionsApart _ _ = Unit {0}

abbrev pub Apart : Event → Event → Type 0
Apart e f = ((address_of e =ˢ address_of f) ≡ false) × SessionsApart (session_of e) (session_of f)

changes_comm :
    {A : Type 0} (p q a : String) (g h : A → A) (o : A)
    → (p =ˢ q) ≡ false
    → (if p =ˢ a then g (if q =ˢ a then h o else o) else (if q =ˢ a then h o else o))
      ≡ (if q =ˢ a then h (if p =ˢ a then g o else o) else (if p =ˢ a then g o else o))
changes_comm p q a g h o apart = ground (arith, eq_iff p q, eq_iff p a, eq_iff q a)

sessions_comm :
    {A : Type 0} (p q : Option String) (k : String) (g h : A → A) (o : A)
    → SessionsApart p q
    → at_session p k g (at_session q k h o) ≡ at_session q k h (at_session p k g o)
sessions_comm none q k g h o apart = refl
sessions_comm (some p) none k g h o apart = refl
sessions_comm (some p) (some q) k g h o apart = changes_comm p q k g h o apart

step_comm :
    (e f : Event) (m : MailboxServer)
    → Apart e f
    → SameMailbox (step e (step f m)) (step f (step e m))
step_comm e f m (addresses, sessions) = record {
  sessions = λ k.
      step-session e k (step f m)
      ∙ ap (at_session (session_of e) k (session_change e)) (step-session f k m)
      ∙ sessions_comm (session_of e) (session_of f) k (session_change e) (session_change f)
          (lookup k m.sessions) sessions
      ∙ sym (
          step-session f k (step e m)
          ∙ ap (at_session (session_of f) k (session_change f)) (step-session e k m));
  records = λ a.
      rw
        (
          step-record e a (step f m),
          step-record f a m,
          step-record f a (step e m),
          step-record e a m,
        )
        (changes_comm (address_of e) (address_of f) a (record_change e) (record_change f)
          (lookup a m.agent_records) addresses);
  queues = λ a.
      rw
        (
          step-queue e a (step f m),
          (step-rest f m).0,
          step-queue f a m,
          step-queue f a (step e m),
          (step-rest e m).0,
          step-queue e a m,
        )
        (changes_comm (address_of e) (address_of f) a (queue_change e m.envelopes_limit)
          (queue_change f m.envelopes_limit) (lookup a m.envelopes) addresses);
  limit =
      rw
        (
          (step-rest e (step f m)).0,
          (step-rest f m).0,
          (step-rest f (step e m)).0,
          (step-rest e m).0,
        )
        refl;
  signature =
      rw
        (
          (step-rest e (step f m)).1,
          (step-rest f m).1,
          (step-rest f (step e m)).1,
          (step-rest e m).1,
        )
        refl;
}

-- Whether an envelope is taken, and what a fetch gives.
abbrev pub answer : Event → MailboxServer → Bool × List Envelope
answer (routed e) m = ((route_envelope e m).0, [])
answer (fetched a) m = (true, take 1 (queue_of a m))
answer _ m = (true, [])

answer-step :
    (e f : Event) (m : MailboxServer)
    → (address_of f =ˢ address_of e) ≡ false
    → answer e (step f m) ≡ answer e m
unfolding route_envelope
answer-step (routed e) f m h = ground (arith, h, step-queue f e.to m, (step-rest f m).0)
answer-step (fetched a) f m h = ground (arith, h, step-queue f a m)
answer-step (registered uuid r) f m h = refl
answer-step (unregistered session_id a) f m h = refl

-- Events at different addresses, and not in one session, have the same effect on the mailbox in
-- either order, and the same answers.
pub step_view_comm :
    (e f : Event) (m : MailboxServer)
    → Apart e f
    → (step_view e (step_view f (Quot.mk m)) ≡ step_view f (step_view e (Quot.mk m)))
      × (answer e (step f m) ≡ answer e m)
      × (answer f (step e m) ≡ answer f m)
unfolding step_view
step_view_comm e f m apart = (
  Quot.sound (step_comm e f m apart),
  answer-step e f m (flip apart.0),
  answer-step f e m apart.0,
)
  where
    flip : (address_of e =ˢ address_of f) ≡ false → (address_of f =ˢ address_of e) ≡ false
    flip h =
        ground
          (arith, h, eq_iff (address_of e) (address_of f), eq_iff (address_of f) (address_of e))

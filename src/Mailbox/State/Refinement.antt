-- ===== src/Mailbox/State/Refinement.antt =====
-- The queues of the mailbox as first in, first out queues, one per address, over any sequence of
-- events at any addresses.
use open_acn.Base.{
  inr, inl, String, ◌≡◌, false, ◌&&◌, List, [], ◌∷◌, ◌++◌, take, drop, is_empty, if◌then◌else◌,
  ◌=ˢ◌, arith, eq_iff, append_assoc, append-nil, sym, ap, ◌∙◌, All, Bool-cases,
}
use open_acn.Base.GoMap.{lookup-insert, lookup-delete}
use open_acn.Acn.Message.{AgentRecord, Envelope}
use open_acn.Mailbox.State.{
  MailboxServer, register, unregister, remove_first, queue_of, route_envelope,
}

-- What a run of the server does to the mailbox.
pub data Event : Type 0 where
  routed : Envelope → Event
  fetched : String → Event
  registered : String → AgentRecord → Event
  unregistered : String → String → Event

-- A fetch takes the first envelope where there is one, as `apiGetEnvelope` does.
unfoldable pub step : Event → MailboxServer → MailboxServer
step (routed e) m = (route_envelope e m).1
step (fetched a) m = if is_empty (queue_of a m) then m else remove_first a m
step (registered uuid r) m = register uuid r m
step (unregistered session_id a) m = unregister session_id a m

-- The envelopes that an event puts in the queue of an address, and takes from it.
unfoldable pub accepted_by : String → Event → MailboxServer → List Envelope
accepted_by a (routed e) m = if (route_envelope e m).0 && e.to =ˢ a then e ∷ [] else []
accepted_by a _ m = []

unfoldable pub delivered_by : String → Event → MailboxServer → List Envelope
delivered_by a (fetched b) m = if b =ˢ a then take 1 (queue_of a m) else []
delivered_by a _ m = []

-- The event does not register or unregister the address.
abbrev pub Spares : String → Event → Type 0
Spares a (registered uuid r) = (r.address =ˢ a) ≡ false
Spares a (unregistered session_id b) = (b =ˢ a) ≡ false
Spares a _ = Unit

unfoldable pub after : List Event → MailboxServer → MailboxServer
after [] m = m
after (ev ∷ events) m = after events (step ev m)

unfoldable pub accepted : String → List Event → MailboxServer → List Envelope
accepted a [] m = []
accepted a (ev ∷ events) m = accepted_by a ev m ++ accepted a events (step ev m)

unfoldable pub delivered : String → List Event → MailboxServer → List Envelope
delivered a [] m = []
delivered a (ev ∷ events) m = delivered_by a ev m ++ delivered a events (step ev m)

step-routed :
    (a : String) (e : Envelope) (m : MailboxServer)
    → queue_of a m ++ accepted_by a (routed e) m ≡ queue_of a (step (routed e) m)
unfolding step accepted_by route_envelope
step-routed a e m = elim (Bool-cases (e.to =ˢ a)) [
  | inl same ↦ ground (
    arith,
    (eq_iff e.to a).0 same,
    append-nil (queue_of a m),
    lookup-insert e.to a (queue_of e.to m ++ (e ∷ [])) m.envelopes,
  )
  | inr other ↦ ground (
    arith,
    append-nil (queue_of a m),
    other,
    lookup-insert e.to a (queue_of e.to m ++ (e ∷ [])) m.envelopes,
  )
]

step-fetched :
    (a b : String) (m : MailboxServer)
    → queue_of a m ≡ delivered_by a (fetched b) m ++ queue_of a (step (fetched b) m)
unfolding step delivered_by remove_first
step-fetched a b m = elim (Bool-cases (b =ˢ a)) [
  | inl same ↦
      ground (arith, (eq_iff b a).0 same, lookup-insert b a (drop 1 (queue_of b m)) m.envelopes)
  | inr other ↦ ground (arith, other, lookup-insert b a (drop 1 (queue_of b m)) m.envelopes)
]

step_lem :
    (a : String) (ev : Event) (m : MailboxServer)
    → Spares a ev
    → queue_of a m ++ accepted_by a ev m ≡ delivered_by a ev m ++ queue_of a (step ev m)
unfolding step delivered_by accepted_by register unregister
step_lem a (routed e) m h = step-routed a e m
step_lem a (fetched b) m h = append-nil _ ∙ step-fetched a b m
step_lem a (registered uuid r) m h =
    append-nil _ ∙ ground (arith, h, lookup-insert r.address a [] m.envelopes)
step_lem a (unregistered session_id b) m h =
    append-nil _ ∙ ground (arith, h, lookup-delete b a m.envelopes)

chain :
    (q₀ a₀ d₀ q₁ a₁ d₁ q₂ : List Envelope)
    → q₀ ++ a₀ ≡ d₀ ++ q₁
    → q₁ ++ a₁ ≡ d₁ ++ q₂
    → q₀ ++ (a₀ ++ a₁) ≡ (d₀ ++ d₁) ++ q₂
chain q₀ a₀ d₀ q₁ a₁ d₁ q₂ h k =
    sym (append_assoc q₀ a₀ a₁)
    ∙ ap (λ l. l ++ a₁) h
    ∙ append_assoc d₀ q₁ a₁
    ∙ ap (λ l. d₀ ++ l) k
    ∙ sym (append_assoc d₀ d₁ q₂)

-- Over any sequence of envelopes routed and fetched, and of registrations and unregistrations of
-- other addresses: the envelopes that were in an address's queue followed by those accepted for it
-- are those delivered from it followed by those in its queue at the end, in that order.
pub delivered-accepted :
    (a : String) (events : List Event) (m : MailboxServer)
    → All (Spares a) events
    → queue_of a m ++ accepted a events m ≡ delivered a events m ++ queue_of a (after events m)
unfolding after accepted delivered
delivered-accepted a [] m h = append-nil _
delivered-accepted a (ev ∷ events) m (h, hs) =
    chain (queue_of a m) (accepted_by a ev m) (delivered_by a ev m) (queue_of a (step ev m))
      (accepted a events (step ev m)) (delivered a events (step ev m))
      (queue_of a (after events (step ev m))) (step_lem a ev m h)
      (delivered-accepted a events (step ev m) hs)

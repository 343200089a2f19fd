-- ===== src/Peer/Route/Laws.antt =====
-- Which envelopes the peer routes, and where the mailbox comes in.
use open_acn.Base.{
  ◌∙◌, ap, sym, String, ◌≡◌, ◌⊎◌, true, false, Option, none, some, Except, done, fail, ok, ◌=ˢ◌,
  arith, refl, Bool-cases, inl, inr, eq_iff,
}
use open_acn.Base.GoMap.{lookup, is_some}
use open_acn.Acn.Message.{AgentRecord, Envelope}
use open_acn.Mailbox.State.{MailboxServer, route_envelope, is_addr_registered}
use open_acn.Peer.State.{DhtPeer, Environment}
use open_acn.Peer.Records.{get_envelope_acn_record, in_mailbox}
use open_acn.Peer.Requests.{unknown_agent_address}
use open_acn.Peer.Route.{
  try_mailbox, store_mailbox, from_sender, route_to_mailbox, route_peer_envelope,
  handle_aea_envelope,
}

-- The peer's own agent, an agent with a mailbox, or one whose record the peer holds. On a peer that has
-- no agent, an empty sender passes for its own.
abbrev pub IsLocal : String → DhtPeer → Type 0
IsLocal addr s =
    ((addr ≡ s.my_agent_address) × ((addr =ˢ "") ≡ false))
    ⊎ ((addr ≡ "") × (s.my_agent_address ≡ ""))
    ⊎ (in_mailbox addr s.mailbox_server ≡ true)
    ⊎ (is_some (lookup addr s.agent_records) ≡ true)

get_envelope_acn_record-IsLocal :
    (s : DhtPeer) (envel : Envelope) (r : Option AgentRecord)
    → get_envelope_acn_record s envel ≡ done r
    → IsLocal envel.sender s
unfolding get_envelope_acn_record
get_envelope_acn_record-IsLocal s envel r e =
    elim (Bool-cases (envel.sender =ˢ s.my_agent_address)) [
      | inl mine ↦ own_or_nobody ((eq_iff envel.sender s.my_agent_address).0 mine)
      | inr other ↦ inr (inr (ground (arith, other, e)))
    ]
  where
    own_or_nobody : envel.sender ≡ s.my_agent_address → IsLocal envel.sender s
    own_or_nobody same = elim (Bool-cases (envel.sender =ˢ "")) [
      | inl empty ↦
          let nobody = (eq_iff envel.sender "").0 empty in inr (inl (nobody, sym same ∙ nobody))
      | inr named ↦ inl (same, named)
    ]

-- An envelope that `RouteEnvelope` routes without an error is from the peer's own agent, from an agent
-- with a mailbox, or from one whose record the peer holds, or it has an empty sender and the peer
-- has no agent.
pub route_peer_envelope-IsLocal :
    (env : Environment) (s t : DhtPeer) (envel : Envelope)
    → route_peer_envelope env envel s ≡ (ok tt, t)
    → IsLocal envel.sender s
unfolding route_peer_envelope
route_peer_envelope-IsLocal env s t envel e = go (get_envelope_acn_record s envel) refl e
  where
    go :
        (x : Except (Option AgentRecord))
        → get_envelope_acn_record s envel ≡ x
        → from_sender env envel x s ≡ (ok tt, t)
        → IsLocal envel.sender s
    go (fail y) p q = cc
    go (done r) p q = get_envelope_acn_record-IsLocal s envel r p

-- An envelope that the mailbox takes goes nowhere else, whether it comes from another peer or
-- from a sender of which the peer has the record.
mailbox_first :
    (env : Environment) (s : DhtPeer) (envel : Envelope) (m m' : MailboxServer)
    (r : Option AgentRecord)
    → s.mailbox_server ≡ some m
    → route_envelope envel m ≡ (true, m')
    → get_envelope_acn_record s envel ≡ done r
    → (handle_aea_envelope env envel s ≡ (ok none, record s { mailbox_server = some m' }))
      × (route_peer_envelope env envel s ≡ (ok tt, record s { mailbox_server = some m' }))
unfolding handle_aea_envelope route_peer_envelope route_to_mailbox
mailbox_first env s envel m m' r hm taken sender =
    (rw (hm, taken) refl, rw (sender, hm, taken) refl)

not_taken :
    (envel : Envelope) (m : MailboxServer)
    → is_addr_registered envel.to m ≡ false
    → route_envelope envel m ≡ (false, m)
unfolding route_envelope is_addr_registered
not_taken envel m h = ground (arith, h)

no_queue :
    (s : DhtPeer) (envel : Envelope) (o : Option MailboxServer)
    → s.mailbox_server ≡ o
    → in_mailbox envel.to o ≡ false
    → route_to_mailbox envel s ≡ (ok false, s)
unfolding route_to_mailbox
no_queue s envel none p h = rw (p) refl
no_queue s envel (some m) p h =
    ap (λ o. try_mailbox envel o s) p
    ∙ ap (store_mailbox s) (not_taken envel m h)
    ∙ ap (λ o. (ok false, record s { mailbox_server = o })) (sym p)

-- An envelope from another peer for an address without a mailbox, that is no delegate client and not
-- the peer's agent, is refused as unknown, and changes nothing.
unknown_target_refused :
    (env : Environment) (s : DhtPeer) (envel : Envelope)
    → in_mailbox envel.to s.mailbox_server ≡ false
    → lookup envel.to s.tcp_addresses ≡ none
    → (envel.to =ˢ s.my_agent_address) ≡ false
    → handle_aea_envelope env envel s ≡ (ok (some unknown_agent_address), s)
unfolding handle_aea_envelope
unknown_target_refused env s envel no_mailbox no_delegate other =
    rw (no_delegate, no_queue s envel s.mailbox_server refl no_mailbox, other) refl

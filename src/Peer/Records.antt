-- ===== src/Peer/Records.antt =====
-- `getEnvelopeAcnRecord`: whose record the peer knows.
use open_acn.Base.{
  String, Bool, true, false, Option, none, some, Except, done, fail, msg, if◌then◌else◌, ◌=ˢ◌, ◌≡◌,
  arith, Option-cases, inl, inr,
}
use open_acn.Base.GoMap.{lookup}
use open_acn.Acn.Message.{AgentRecord, Envelope, ◌+ˢ◌}
use open_acn.Mailbox.State.{MailboxServer, is_addr_registered, get_agent_record}
use open_acn.Mailbox.State.Invariant.{IsValid}
use open_acn.Peer.State.{DhtPeer}

-- `mailboxServer != nil && mailboxServer.IsAddrRegistered(addr)`
abbrev pub in_mailbox : String → Option MailboxServer → Bool
in_mailbox addr none = false
in_mailbox addr (some m) = is_addr_registered addr m

abbrev pub mailbox_record : String → Option MailboxServer → Option AgentRecord
mailbox_record addr none = none
mailbox_record addr (some m) = get_agent_record addr m

-- The record may be nil without an error.
unfoldable pub get_envelope_acn_record : DhtPeer → Envelope → Except (Option AgentRecord)
get_envelope_acn_record s envel =
    if envel.sender =ˢ s.my_agent_address
    then done s.my_agent_record
    else if in_mailbox envel.sender s.mailbox_server
    then done (mailbox_record envel.sender s.mailbox_server)
    else elim (lookup envel.sender s.agent_records) [
      | some r ↦ done (some r)
      | none ↦ fail (msg ("Envelope sender is not registered locally " +ˢ envel.sender))
    ]

pub mailbox_record_lem :
    (addr : String) (m : MailboxServer)
    → IsValid m
    → is_addr_registered addr m ≡ true
    → (r : AgentRecord) × (lookup addr m.agent_records ≡ some r)
      × (get_agent_record addr m ≡ some r)
unfolding get_agent_record is_addr_registered
mailbox_record_lem addr m v h = elim (Option-cases (lookup addr m.agent_records)) [
  | inl e ↦ ground (arith, v.same_keys addr, e, h)
  | inr (r, e) ↦ (r, e, ground (arith, e, h))
]

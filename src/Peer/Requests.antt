-- ===== src/Peer/Requests.antt =====
-- `HandleAeaAddressRequest`, and the peer as a handler of streams.
use open_acn.Base.{
  Result, ok, err, panic, Exec, err, ok, Exec, Result, String, true, false, Option, none, some,
  done, fail, msg, if◌then◌else◌, ◌=ˢ◌, ◌≡◌, arith,
}
use open_acn.Base.GoMap.{lookup, is_some}
use open_acn.Acn.Message.{AgentRecord, Envelope, error_unknown_agent_address}
use open_acn.Acn.Protocol.{AcnError}
use open_acn.Mailbox.State.{MailboxServer, is_addr_registered}
use open_acn.Mailbox.State.Invariant.{IsValid}
use open_acn.Peer.State.{DhtPeer, Environment}
use open_acn.Peer.Records.{in_mailbox, mailbox_record, get_envelope_acn_record, mailbox_record_lem}
use open_acn.Peer.Streams.{Resolved, lookup_address_dht}

-- The two results of `HandleAeaAddressRequest`.
abbrev pub Answer : Type 0
Answer = Option AgentRecord × Option AcnError

abbrev pub found : AgentRecord → Answer
found r = (some r, none)

abbrev pub unknown_agent_address : AcnError
unknown_agent_address = record {
  error_code = error_unknown_agent_address;
  cause = msg "unknown agent address";
}

abbrev pub answer_record : Option AgentRecord → Answer
answer_record none = (none, some unknown_agent_address)
answer_record (some r) = found r

module _ (env : Environment) where
  -- The record, when the peer has an id to go with it.
  abbrev pub with_own_id : Option AgentRecord → Option AgentRecord
  with_own_id r = elim env.own_peer_id [ fail e ↦ none | done _ ↦ r ]

  abbrev pub looked_up : Resolved → Result Answer
  looked_up (ok (_, r)) = ok (answer_record r)
  looked_up (err e) = ok (answer_record none)
  looked_up panic = panic

  unfoldable pub handle_aea_address_request : String → Exec DhtPeer Answer
  handle_aea_address_request req_address s =
      if req_address =ˢ s.my_agent_address
      then (ok (answer_record (with_own_id s.my_agent_record)), s)
      else if is_some (lookup req_address s.dht_addresses)
      then (ok (answer_record (lookup req_address s.agent_records)), s)
      else if in_mailbox req_address s.mailbox_server
      then (ok (answer_record (mailbox_record req_address s.mailbox_server)), s)
      else if is_some (lookup req_address s.tcp_addresses)
      then (ok (answer_record (with_own_id (lookup req_address s.agent_records))), s)
      else (looked_up (lookup_address_dht env req_address), s)

-- An address that has a mailbox in a valid state, and is neither the peer's own nor a relay client's:
-- the peer answers a lookup of it with the record that it registered, and an envelope from it is
-- routed with the same record.
pub handle_aea_address_request-get_envelope_acn_record :
    (env : Environment) (s : DhtPeer) (m : MailboxServer) (envel : Envelope)
    → s.mailbox_server ≡ some m
    → IsValid m
    → is_addr_registered envel.sender m ≡ true
    → (envel.sender =ˢ s.my_agent_address) ≡ false
    → lookup envel.sender s.dht_addresses ≡ none
    → (r : AgentRecord) × (lookup envel.sender m.agent_records ≡ some r)
      × (handle_aea_address_request env envel.sender s ≡ (ok (found r), s))
      × (get_envelope_acn_record s envel ≡ done (some r))
unfolding handle_aea_address_request get_envelope_acn_record
handle_aea_address_request-get_envelope_acn_record env s m envel hm v reg other relay =
    let (r, e, g) = mailbox_record_lem envel.sender m v reg in
    (r, e, ground (arith, hm, reg, other, relay, g), ground (arith, hm, reg, other, g))

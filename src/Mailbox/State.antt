-- ===== src/Mailbox/State.antt =====
-- `MailboxServer` and its operations under the lock. The http server, the listener and the
-- certificate are left out.
pub mod Refinement
pub mod Invariant
pub mod View
use open_acn.Base.{
  String, ℕ, zero, ◌-◌, Bool, true, false, not, ◌&&◌, Option, none, some, List, [], ◌∷◌, ◌++◌,
  length, if◌then◌else◌, leb, ◌==◌, drop,
}
use open_acn.Base.GoMap.{GoMap, lookup, insert, delete, is_some}
use open_acn.Wire.Word.{Bytes}
use open_acn.Acn.Message.{AgentRecord, Envelope}

pub record MailboxServer : Type 0 where
  pub sessions : GoMap String
  pub agent_records : GoMap AgentRecord
  pub envelopes : GoMap (List Envelope)
  pub envelopes_limit : ℕ
  pub signature : Bytes

-- The state that `start` sets up.
abbrev pub start : Bytes → MailboxServer
start signature = record {
  sessions = [];
  agent_records = [];
  envelopes = [];
  envelopes_limit = 1000;
  signature = signature;
}

-- The writes at the end of `apiRegister`.
unfoldable pub register : String → AgentRecord → MailboxServer → MailboxServer
register uuid r m = record m {
  sessions = insert uuid r.address m.sessions;
  agent_records = insert r.address r m.agent_records;
  envelopes = insert r.address [] m.envelopes;
}

-- The writes at the end of `apiUnregister`.
unfoldable pub unregister : String → String → MailboxServer → MailboxServer
unregister session_id addr m = record m {
  sessions = delete session_id m.sessions;
  agent_records = delete addr m.agent_records;
  envelopes = delete addr m.envelopes;
}

-- `mailboxServer.envelopes[addr]`, which is empty for a key that is not there.
abbrev pub queue_of : String → MailboxServer → List Envelope
queue_of addr m = elim (lookup addr m.envelopes) [ none ↦ [] | some q ↦ q ]

-- `mailboxServer.envelopes[addr] = mailboxServer.envelopes[addr][1:]`
unfoldable pub remove_first : String → MailboxServer → MailboxServer
remove_first addr m = record m { envelopes = insert addr (drop 1 (queue_of addr m)) m.envelopes }

abbrev pub is_full : List Envelope → ℕ → Bool
is_full q limit = not (limit == 0) && leb limit (length q)

-- `(*MailboxServer).RouteEnvelope`: whether the envelope was put in the queue of its target.
unfoldable pub route_envelope : Envelope → MailboxServer → Bool × MailboxServer
route_envelope envelope m = elim (lookup envelope.to m.envelopes) [
  | none ↦ (false, m)
  | some q ↦
      if is_full q m.envelopes_limit
      then (false, m)
      else (true, record m { envelopes = insert envelope.to (q ++ (envelope ∷ [])) m.envelopes })
]

unfoldable pub is_addr_registered : String → MailboxServer → Bool
is_addr_registered addr m = is_some (lookup addr m.envelopes)

unfoldable pub get_agent_record : String → MailboxServer → Option AgentRecord
unfolding is_addr_registered
get_agent_record addr m =
    if not (is_addr_registered addr m) then none else lookup addr m.agent_records

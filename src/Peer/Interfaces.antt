-- ===== src/Peer/Interfaces.antt =====
-- A `DHTPeer` as the handler of the streams that others open to it, and as the peer behind its
-- mailbox.
use open_acn.Base.{Bool, Except, String, Option, none, some, Result, Exec}
use open_acn.Mailbox.State.{MailboxServer}
use open_acn.Mailbox.Handlers.{Server, Peer}
use open_acn.Common.Line.{Line}
use open_acn.Common.Handlers.{DhtHandler, handle_aea_envelope_stream, handle_aea_address_stream}
use open_acn.Peer.State.{DhtPeer, Environment}
use open_acn.Peer.Route.{handle_aea_envelope, route_peer_envelope}
use open_acn.Peer.Requests.{handle_aea_address_request}
use open_acn.Peer.Announce.{register_agent_address}
use open_acn.Peer.Delegate.{check_por}

-- The mailbox of a peer is the one that its handlers work on.
abbrev pub mailbox_after : MailboxServer → Option MailboxServer → MailboxServer
mailbox_after m none = m
mailbox_after m (some changed) = changed

abbrev pub split_mailbox :
    {A : Type 0} → MailboxServer → Result A × DhtPeer → Result A × Server DhtPeer
split_mailbox m (r, s) = (r, (mailbox_after m s.mailbox_server, s))

abbrev pub with_mailbox : {A : Type 0} → Exec DhtPeer A → Exec (Server DhtPeer) A
with_mailbox action (m, s) = split_mailbox m (action (record s { mailbox_server = some m }))

module _ (env : Environment) where
  abbrev pub peer_handler : DhtHandler DhtPeer
  peer_handler = record {
    handle_aea_envelope = handle_aea_envelope env;
    handle_aea_address_request = handle_aea_address_request env;
  }

  abbrev pub peer_envelope_stream : Except String → Exec (Line × DhtPeer) (Unit {0})
  peer_envelope_stream =
      handle_aea_envelope_stream env.crypto env.messages env.envelopes peer_handler

  abbrev pub peer_address_stream : Exec (Line × DhtPeer) (Unit {0})
  peer_address_stream = handle_aea_address_stream env.crypto env.messages env.envelopes peer_handler

  -- Whether announcements are enabled does not change while a request is handled.
  abbrev pub mailbox_peer : Bool → Peer DhtPeer
  mailbox_peer enabled = record {
    check_por = check_por env;
    is_address_announcement_enabled = enabled;
    register_agent_address = λ addr. with_mailbox (register_agent_address env addr);
    route_envelope = λ envel. with_mailbox (route_peer_envelope env envel);
  }

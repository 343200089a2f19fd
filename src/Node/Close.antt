-- ===== src/Node/Close.antt =====
-- `Close` of a peer and of a client (dht/dhtpeer/dhtpeer.go, dht/dhtclient/dhtclient.go), over what a
-- node that runs has opened. What a goroutine does after its channel is closed is left out.
use open_acn.Base.{
  String, Bool, true, false, Option, none, some, List, [], ◌∷◌, ◌++◌, Err, ok, panic, Exec,
  if◌then◌else◌,
}
use open_acn.Base.GoMap.{GoMap}
use open_acn.Wire.Word.{Bytes}
use open_acn.Mailbox.State.{MailboxServer}
use open_acn.Peer.State.{ConnRef, DhtPeer}
use open_acn.Node.Bootstrap.{Host}

-- What `Close` closes.
pub data Resource : Type 0 where
  listener mailbox_service dht_node host_node record_file : Resource
  client_connection : ConnRef → Resource

-- The goroutines that `New` starts at its end.
pub data Service : Type 0 where
  delegate_service mailbox monitoring slow_envelopes : Service

-- A peer beside its host; `is_closed` is whether the channel `closing` is closed, and
-- `queues_closed` whether the channels of envelopes are.
pub record Running : Type 0 where
  pub node : DhtPeer
  pub network : Host
  pub signature : Bytes
  -- where the listener of delegate clients listens, if there is one
  pub listening : Option String
  pub services : List Service
  pub is_closed : Bool
  pub queues_closed : Bool
  pub released : List Resource

abbrev pub client_connections : GoMap ConnRef → List Resource
client_connections [] = []
client_connections ((addr, conn) ∷ conns) = client_connection conn ∷ client_connections conns

abbrev pub delegate_resources : Option String → GoMap ConnRef → List Resource
delegate_resources none conns = []
delegate_resources (some uri) conns = listener ∷ client_connections conns

abbrev pub mailbox_resources : Option MailboxServer → List Resource
mailbox_resources none = []
mailbox_resources (some m) = mailbox_service ∷ []

-- In the order in which they are closed.
unfoldable pub resources : Running → List Resource
resources s =
    delegate_resources s.listening s.node.tcp_addresses
    ++ (mailbox_resources s.node.mailbox_server ++ (dht_node ∷ host_node ∷ record_file ∷ []))

abbrev pub stopped : Host → Host
stopped h = record h { running = false; dht_running = false }

abbrev pub closed_peer : Running → Running
closed_peer s = record s {
  node = record s.node { is_closing = true };
  network = stopped s.network;
  is_closed = true;
  queues_closed = true;
  released = s.released ++ resources s;
}

-- A client beside its host.
pub record RunningClient : Type 0 where
  pub network : Host
  pub is_closed : Bool
  pub released : List Resource

abbrev pub closed_client : RunningClient → RunningClient
closed_client s = record {
  network = stopped s.network;
  is_closed = true;
  released = s.released ++ (dht_node ∷ host_node ∷ []);
}

module _ (close_error : Resource → Option Err) where
  -- An error of the mailbox is only logged.
  abbrev pub reported : Resource → Option Err
  reported mailbox_service = none
  reported r = close_error r

  abbrev pub err_append : Option Err → List Err → List Err
  err_append none status = status
  err_append (some e) status = e ∷ status

  unfoldable pub statuses : List Resource → List Err
  statuses [] = []
  statuses (r ∷ rs) = err_append (reported r) (statuses rs)

  -- Closing the channel `closing` again panics.
  unfoldable pub close_peer : Exec Running (List Err)
  unfolding resources
  close_peer s = if s.is_closed then (panic, s) else (ok (statuses (resources s)), closed_peer s)

  unfoldable pub close_client : Exec RunningClient (List Err)
  close_client s =
      if s.is_closed
      then (panic, s)
      else (ok (statuses (dht_node ∷ host_node ∷ [])), closed_client s)

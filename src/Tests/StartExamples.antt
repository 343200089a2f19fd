-- ===== src/Tests/StartExamples.antt =====
-- The set-up of a peer whose file of records holds one agent, and its end.
use open_acn.Base.{msg, fail, true, none, some, [], ◌∷◌, done, panic, ◌≡◌, refl}
use open_acn.Peer.Announce.{register_agent_address}
use open_acn.Node.Settings.{PeerSettings}
use open_acn.Node.Close.{Running, close_peer}
use open_acn.Node.Start.{no_host, Setup, set_up, fresh}
use open_acn.Node.StartClient.{
  ClientSetup, fresh_client, set_up_client, dialled, disconnected, reconnect_loop,
}
use open_acn.Node.StartClient.Laws.{Ended, set_up_client-Ended}
use open_acn.Client.State.{register_agent_address as register_client}
use open_acn.Tests.ClientExamples.{client}
use open_acn.Tests.Fixtures.{crypto}
use open_acn.Tests.PeerExamples.{env}
use open_acn.Tests.NodeExamples.{one_key, entry, network}

-- The header of one record of no bytes, which the runtime decodes as that of "agent".
abbrev pub setup : Setup
setup = record {
  net = network;
  create_host = done tt;
  create_dht = done tt;
  certificate = done tt;
  session_key = done (1 ∷ []);
  bootstrap_dht = done tt;
  notif_stream = λ id. done none;
  own_peer_text = "me";
  open_file = λ path. done (0 ∷ 0 ∷ 0 ∷ 0 ∷ []);
  peer_id = λ key. done key;
  listen = λ uri. done tt;
  decimal = λ n. "11000";
  close_error = λ r. none;
}

abbrev settings : PeerSettings crypto one_key
settings = record {
  host = "127.0.0.1";
  port = 9000;
  public_host = "host";
  public_port = 9000;
  delegate_port = 11000;
  monitoring_port = 0;
  enable_relay = true;
  mailbox_host_port = "host:8888";
  registration_delay = 0;
  key_pair = some (tt, tt);
  local_multiaddr = some "local";
  public_multiaddr = some "public";
  bootstrap_peers = entry ∷ [];
  my_agent_address = "";
  my_agent_record = none;
  persistent_storage_path = "store";
}

abbrev started : Running
started = (set_up setup env one_key settings (fresh setup env one_key settings)).1

-- A second `Close` panics.
close_twice_example :
    (close_peer setup.close_error
      (close_peer setup.close_error (fresh setup env one_key settings)).1).0
    ≡ panic
unfolding close_peer
close_twice_example = refl

-- The bootstrap succeeds at its second attempt, and the second time the host has an address of a
-- circuit, whose code is 290.
abbrev pub client_setup : ClientSetup
client_setup = record {
  create_host = done tt;
  create_dht = done tt;
  first = fail (msg "refused");
  retries = done tt ∷ [];
  bootstrap_dht = done tt;
  polls = ((4 ∷ 6 ∷ []) ∷ []) ∷ ((4 ∷ 6 ∷ []) ∷ (4 ∷ 6 ∷ 290 ∷ []) ∷ []) ∷ [];
  circuit_code = 290;
  close_error = λ r. none;
}

set_up_client-Ended_example :
    Ended client_setup tt
      (done tt)
      (entry ∷ [])
      (some tt)
      client_setup.polls
      (register_client client tt)
      (set_up_client client_setup client (entry ∷ []) (fresh_client, tt))
set_up_client-Ended_example = set_up_client-Ended client_setup tt client (entry ∷ [])

-- The relay answers the second dial; another peer is not dialled.
reconnected_example :
    ((disconnected "entry" entry
        (dialled (fail (msg "refused")) ∷ dialled (done tt) ∷ [])
        no_host).0
      ≡ true)
    × ((disconnected "other" entry [] no_host).1 ≡ no_host)
unfolding disconnected reconnect_loop
reconnected_example = (refl, refl)

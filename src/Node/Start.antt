-- ===== src/Node/Start.antt =====
-- `New` of dht/dhtpeer/dhtpeer.go after the checks of its settings: the host, the bootstrap, the file
-- of records, the announcements, the handlers and the services. Metrics and logging are left out.
pub mod Steps
pub mod Serving
pub mod Creating
pub mod Announcing
pub mod Laws
use open_acn.Base.{
  String, ℕ, Bool, true, false, Option, none, some, List, [], ◌∷◌, ◌++◌, Except, done, fail, Err,
  Result, ok, err, panic, Exec, pure, raise, crash, lift, attempt, from_result, ◌>>=◌, ◌>>◌,
  if◌then◌else◌, ◌=ˢ◌, ◌==◌,
}
use open_acn.Base.GoMap.{GoMap, keys}
use open_acn.Wire.Word.{Bytes}
use open_acn.Acn.Message.{◌+ˢ◌}
use open_acn.Por.Signing.{Keys}
use open_acn.Mailbox.State.{start}
use open_acn.Storage.{Loaded, init_agent_record_persistent_storage, wrap}
use open_acn.Peer.State.{DhtPeer, Environment, gets}
use open_acn.Peer.Relay.{announce_all, announce_mine}
use open_acn.Node.Addresses.{AddrInfo}
use open_acn.Node.Bootstrap.{Host, Network, bootstrap_connect}
use open_acn.Node.Settings.{PeerSettings, default_persistent_storage_path}
use open_acn.Node.PeerOptions.{PeerOption, configure_peer}
use open_acn.Node.Close.{
  Resource, Running, Service, delegate_service, mailbox, monitoring, slow_envelopes, close_peer,
}

-- How the libraries' calls end.
pub record Setup : Type 0 where
  pub net : Network
  pub create_host : Except (Unit {0})
  pub create_dht : Except (Unit {0})
  -- `generate_x509_cert`, and the bytes of the ECDH key of the certificate
  pub certificate : Except (Unit {0})
  pub session_key : Except Bytes
  pub bootstrap_dht : Except (Unit {0})
  -- `NewStream` to a bootstrap peer, and the error of the `Write` on it
  pub notif_stream : String → Except (Option Err)
  -- the text of `peer.IDFromPublicKey(dhtPeer.publicKey)`
  pub own_peer_text : String
  pub open_file : String → Except Bytes
  pub peer_id : String → Except String
  -- `tls.Listen`
  pub listen : String → Except (Unit {0})
  pub decimal : ℕ → String
  pub close_error : Resource → Option Err

abbrev pub aea_register_relay_stream : String
aea_register_relay_stream = "/aea-register/0.1.0"

abbrev pub aea_notif_stream : String
aea_notif_stream = "/aea-notif/0.1.0"

abbrev pub aea_address_stream : String
aea_address_stream = "/aea-address/0.1.0"

abbrev pub aea_envelope_stream : String
aea_envelope_stream = "/aea/0.1.0"

abbrev pub update : (Running → Running) → Exec Running (Unit {0})
update f s = (ok tt, f s)

abbrev put_network : {A : Type 0} → Running → Result A × Host → Result A × Running
put_network s (r, h) = (r, record s { network = h })

abbrev pub on_network : {A : Type 0} → Exec Host A → Exec Running A
on_network m s = put_network s (m s.network)

abbrev put_node : {A : Type 0} → Running → Result A × DhtPeer → Result A × Running
put_node s (r, node) = (r, record s { node = node })

abbrev pub on_running : {A : Type 0} → Exec DhtPeer A → Exec Running A
on_running m s = put_node s (m s.node)

abbrev pub no_host : Host
no_host = record {
  peerstore = [];
  running = false;
  dht_running = false;
  stream_handlers = [];
  notified = [];
}

abbrev pub put_handler : String → Host → Host
put_handler protocol h = record h { stream_handlers = h.stream_handlers ++ (protocol ∷ []) }

abbrev pub put_notified : String → Host → Host
put_notified id h = record h { notified = h.notified ++ (id ∷ []) }

-- `SetStreamHandler`
abbrev pub set_stream_handler : String → Exec Running (Unit {0})
set_stream_handler protocol = update (λ s. record s { network = put_handler protocol s.network })

abbrev pub put_loaded : Bytes → Loaded → DhtPeer → DhtPeer
put_loaded file l s = record s {
  storage = file;
  agent_records = l.agent_records;
  dht_addresses = l.dht_addresses;
}

-- `go` with a service
abbrev pub launch : Service → Exec Running (Unit {0})
launch service = update (λ s. record s { services = s.services ++ (service ∷ []) })

abbrev pub initialized : {A : Type 0} → Result A → Result A
initialized (ok a) = ok a
initialized (err e) = err (wrap e "while initializing agent record storage")
initialized panic = panic

module _ (setup : Setup) where
  -- An error closes the peer.
  abbrev pub closing_on : {A : Type 0} → Except A → Exec Running A
  closing_on (fail e) = close_peer setup.close_error >> raise e
  closing_on (done a) = pure a

  abbrev pub or_close : {A : Type 0} → Exec Running A → Exec Running A
  or_close m = do r ← attempt m; closing_on r

  abbrev pub join : List AddrInfo → Exec Running (Unit {0})
  join [] = pure tt
  join (p ∷ ps) = on_network (bootstrap_connect setup.net (p ∷ ps))

  abbrev pub written : String → Option Err → Exec Running (Unit {0})
  written id (some e) = raise e
  written id none = update (λ s. record s { network = put_notified id s.network })

  unfoldable pub notify_all : List AddrInfo → Exec Running (Unit {0})
  notify_all [] = pure tt
  notify_all (p ∷ ps) = (lift (setup.notif_stream p.id) >>= λ w. written p.id w) >> notify_all ps

  abbrev pub set_relay : Bool → Exec Running (Unit {0})
  set_relay true = set_stream_handler aea_register_relay_stream
  set_relay false = pure tt

  -- From the bootstrap up to the notices to the bootstrap peers.
  unfoldable pub join_network : Bool → List AddrInfo → Exec Running (Unit {0})
  unfolding notify_all
  join_network relay peers = do
    or_close (join peers)
    or_close (lift setup.bootstrap_dht)
    set_relay relay
    set_stream_handler aea_notif_stream
    or_close (notify_all peers)

  abbrev pub storage_path : String → String
  storage_path path =
      if path =ˢ default_persistent_storage_path then path +ˢ "_" +ˢ setup.own_peer_text else path

  abbrev pub listened : String → Except (Unit {0}) → Exec Running (Unit {0})
  listened uri (fail e) = crash
  listened uri (done _) = update (λ s. record s { listening = some uri }) >> launch delegate_service

  unfoldable pub launch_delegate_service : String → ℕ → Exec Running (Unit {0})
  launch_delegate_service host port =
      if port == 0
      then pure tt
      else listened (host +ˢ ":" +ˢ setup.decimal port)
          (setup.listen (host +ˢ ":" +ˢ setup.decimal port))

  abbrev pub start_mailbox : Exec Running (Unit {0})
  start_mailbox =
      update (λ s. record s { node = record s.node { mailbox_server = some (start s.signature) } })
      >> launch mailbox

  unfoldable pub launch_mailbox_service : String → Exec Running (Unit {0})
  launch_mailbox_service host_port = if host_port =ˢ "" then pure tt else start_mailbox

  unfoldable pub serve : String → ℕ → String → Exec Running (Unit {0})
  unfolding launch_delegate_service launch_mailbox_service
  serve host port mailbox_host_port = do
    set_stream_handler aea_address_stream
    set_stream_handler aea_envelope_stream
    launch_delegate_service host port
    launch_mailbox_service mailbox_host_port
    launch monitoring
    launch slow_envelopes

  module _ (env : Environment) where
    abbrev pub loaded : Except Bytes → Exec Running (Unit {0})
    loaded (fail e) = raise (wrap e "while initializing agent record storage")
    loaded (done file) = do
      l ←
          from_result
            (initialized (init_agent_record_persistent_storage env.records setup.peer_id file))
      on_running (λ s. (ok tt, put_loaded file l s))

    abbrev pub announce_stored : Exec DhtPeer (Unit {0})
    announce_stored = do stored ← gets (λ s. keys s.dht_addresses); announce_all env stored

    abbrev pub enable : Exec DhtPeer (Unit {0})
    enable s = (ok tt, record s { enable_address_announcement = true })

    -- A peer without bootstrap peers has nobody to announce its addresses to.
    abbrev pub announce_to : List AddrInfo → Exec Running (Unit {0})
    announce_to [] = pure tt
    announce_to (p ∷ ps) = do
      on_running announce_stored
      on_running enable
      or_close (on_running (announce_mine env))

    unfoldable pub load_and_announce : String → List AddrInfo → Exec Running (Unit {0})
    load_and_announce path peers = loaded (setup.open_file (storage_path path)) >> announce_to peers

    module _ (k : Keys env.crypto) where
      -- `dhtPeer` with the fields that the options set.
      abbrev pub new_node : PeerSettings env.crypto k → DhtPeer
      new_node s = record {
        my_agent_address = s.my_agent_address;
        my_agent_record = s.my_agent_record;
        agent_records = [];
        mailbox_server = none;
        connections = [];
        tcp_addresses = [];
        dht_addresses = [];
        acn_statuses = [];
        address_announced_map = [];
        provide_calls = [];
        slow_queue = [];
        sync_messages = [];
        enable_address_announcement = false;
        enable_relay = s.enable_relay;
        delegate_port = s.delegate_port;
        storage = [];
        is_closing = false;
      }

      abbrev pub fresh : PeerSettings env.crypto k → Running
      fresh s = record {
        node = new_node s;
        network = no_host;
        signature = [];
        listening = none;
        services = [];
        is_closed = false;
        queues_closed = false;
        released = [];
      }

      -- Signing with a nil key panics.
      abbrev pub session_signature : Option (k.PrivKey × k.NodeKey) → Bytes → Exec Running Bytes
      session_signature none b = crash
      session_signature (some (key, public)) b = lift (k.sign key b)

      abbrev pub make_ssl_certificate_and_signature :
          Option (k.PrivKey × k.NodeKey) → Exec Running (Unit {0})
      make_ssl_certificate_and_signature key_pair = do
        lift setup.certificate
        b ← lift setup.session_key
        sig ← session_signature key_pair b
        update (λ s. record s { signature = sig })

      -- Up to the routed host; an error leaves the host open.
      unfoldable pub create_node : Option (k.PrivKey × k.NodeKey) → Exec Running (Unit {0})
      create_node key_pair = do
        lift setup.create_host
        update (λ s. record s { network = record s.network { running = true } })
        lift setup.create_dht
        update (λ s. record s { network = record s.network { dht_running = true } })
        make_ssl_certificate_and_signature key_pair

      unfoldable pub set_up : PeerSettings env.crypto k → Exec Running (Unit {0})
      unfolding create_node join_network load_and_announce serve
      set_up s = do
        create_node s.key_pair
        join_network s.enable_relay s.bootstrap_peers
        load_and_announce s.persistent_storage_path s.bootstrap_peers
        serve s.host s.delegate_port s.mailbox_host_port

      abbrev pub with_peer : Result (Unit {0}) × Running → Result Running
      with_peer (ok u, r) = ok r
      with_peer (err e, r) = err e
      with_peer (panic, r) = panic

      abbrev pub from_settings : Result (PeerSettings env.crypto k) → Result Running
      from_settings (ok s) = with_peer (set_up s (fresh s))
      from_settings (err e) = err e
      from_settings panic = panic

      -- `New`
      unfoldable pub new_peer : List (PeerOption env.crypto k) → Result Running
      unfolding configure_peer set_up
      new_peer opts = from_settings (configure_peer env.crypto k opts)

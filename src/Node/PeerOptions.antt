-- ===== src/Node/PeerOptions.antt =====
-- The options of dht/dhtpeer/options.go, and the checks with which `New` of a peer begins. The function
-- that tells whether the agent is ready is left out, and so is the logging level.
use open_acn.Base.{String, ℕ, true, false, Option, none, some, List, [], ◌∷◌, msg, Result, ok, err}
use open_acn.Base.Pure.{◌>>=◌, ◌>>◌, from_except}
use open_acn.Acn.Message.{AgentRecord, ◌+ˢ◌}
use open_acn.Por.Crypto.{Crypto}
use open_acn.Por.Signing.{Keys, key_pair_from_fetchai_key}
use open_acn.Node.Addresses.{get_peers_addr_info}
use open_acn.Node.Settings.{
  Formats, default_persistent_storage_path, copy_record, PeerSettings, check_record, peer_failure,
}

-- `dhtPeer` as `New` makes it before the options.
abbrev pub new_settings : (c : Crypto) (k : Keys c) → PeerSettings c k
new_settings c k = record {
  host = "";
  port = 0;
  public_host = "";
  public_port = 0;
  delegate_port = 0;
  monitoring_port = 0;
  enable_relay = false;
  mailbox_host_port = "";
  registration_delay = 0;
  key_pair = none;
  local_multiaddr = none;
  public_multiaddr = none;
  bootstrap_peers = [];
  my_agent_address = "";
  my_agent_record = none;
  persistent_storage_path = default_persistent_storage_path;
}

module _ (c : Crypto) (k : Keys c) where
  -- What an option that fails has set is not used.
  abbrev pub PeerOption : Type 0
  PeerOption = PeerSettings c k → Result (PeerSettings c k)

  abbrev pub identity_from_fetchai_key : String → PeerOption
  identity_from_fetchai_key key s = do
    pair ← key_pair_from_fetchai_key c k key
    ok (record s { key_pair = some pair })

  abbrev pub register_agent_address : AgentRecord → PeerOption
  register_agent_address r s =
      ok (record s { my_agent_address = r.address; my_agent_record = some (copy_record r) })

  abbrev pub bootstrap_from : Formats → List String → PeerOption
  bootstrap_from f entry_peers s = do
    peers ← get_peers_addr_info f.addresses entry_peers
    ok (record s { bootstrap_peers = peers })

  abbrev pub local_uri : Formats → String → ℕ → PeerOption
  local_uri f host port s = do
    address ← from_except (f.new_multiaddr ("/ip4/" +ˢ host +ˢ "/tcp/" +ˢ f.decimal port))
    ok (record s { local_multiaddr = some address; host = host; port = port })

  abbrev pub public_uri : Formats → String → ℕ → PeerOption
  public_uri f host port s = do
    address ← from_except (f.new_multiaddr ("/dns4/" +ˢ host +ˢ "/tcp/" +ˢ f.decimal port))
    ok (record s { public_multiaddr = some address; public_host = host; public_port = port })

  abbrev pub enable_delegate_service : ℕ → PeerOption
  enable_delegate_service port s = ok (record s { delegate_port = port })

  abbrev pub enable_mailbox_service : String → PeerOption
  enable_mailbox_service hostport s = ok (record s { mailbox_host_port = hostport })

  abbrev pub enable_relay_service : PeerOption
  enable_relay_service s = ok (record s { enable_relay = true })

  abbrev pub enable_prometheus_monitoring : ℕ → PeerOption
  enable_prometheus_monitoring port s = ok (record s { monitoring_port = port })

  abbrev pub with_registration_delay : ℕ → PeerOption
  with_registration_delay delay s = ok (record s { registration_delay = delay })

  abbrev pub store_records_to : String → PeerOption
  store_records_to path s = ok (record s { persistent_storage_path = path })

  abbrev pub apply_options : List PeerOption → PeerOption
  apply_options [] s = ok s
  apply_options (opt ∷ opts) s = do t ← opt s; apply_options opts t

  abbrev pub check_own_record : k.NodeKey → Option AgentRecord → Result (Unit {0})
  check_own_record public_key none = ok tt
  check_own_record public_key (some r) = check_record c k (peer_failure c k) public_key r

  abbrev pub check_addresses : Option String → Option String → Result (Unit {0}) → Result (Unit {0})
  check_addresses none public_address next = err (msg "local host and port must be set")
  check_addresses (some a) none next = err (msg "public host and port must be set")
  check_addresses (some a) (some b) next = next

  abbrev pub check_key : Option (k.PrivKey × k.NodeKey) → PeerSettings c k → Result (Unit {0})
  check_key none s = err (msg "private key must be provided")
  check_key (some pair) s =
      check_addresses s.local_multiaddr s.public_multiaddr
        (check_own_record pair.1 s.my_agent_record)

  unfoldable pub check_settings : PeerSettings c k → Result (Unit {0})
  check_settings s = check_key s.key_pair s

  -- `New` up to the set-up of the libp2p node.
  unfoldable pub configure_peer : List PeerOption → Result (PeerSettings c k)
  unfolding check_settings
  configure_peer opts = do s ← apply_options opts (new_settings c k); check_settings s; ok s

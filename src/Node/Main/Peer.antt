-- ===== src/Node/Main/Peer.antt =====
-- The settings of a peer that the configuration gives.
use mathlib.Core.Path.{subst}
use open_acn.Base.{
  refl, ℕ, eq_iff, String, true, Option, none, some, List, ◌∷◌, ◌++◌, Result, ok, ◌≡◌,
  if◌then◌else◌, ◌==◌, ◌=ˢ◌, arith, done,
}
use open_acn.Base.Pure.{◌>>◌, bind-eq-ok, from_except, from_except-eq-ok}
use open_acn.Acn.Message.{AgentRecord, ◌+ˢ◌}
use open_acn.Aea.Config.{Config}
use open_acn.Por.Crypto.{Crypto}
use open_acn.Por.Signing.{Keys, key_pair_from_fetchai_key}
use open_acn.Node.Addresses.{AddrInfo, get_peers_addr_info}
use open_acn.Node.Settings.{
  peer_failure, Formats, PeerSettings, copy_record, default_persistent_storage_path,
}
use open_acn.Node.Checked.{Represented, check_record-Represented}
use open_acn.Node.PeerOptions.{
  check_settings, configure_peer, check_own_record, PeerOption, apply_options, new_settings,
  local_uri, public_uri, identity_from_fetchai_key, enable_relay_service, enable_delegate_service,
  bootstrap_from,
}
use open_acn.Node.Main.{Delays, extra_options, peer_record, peer_options, delay_of}

abbrev pub map_record : Option AgentRecord → Option AgentRecord
map_record none = none
map_record (some r) = some (copy_record r)

abbrev pub named : Option AgentRecord → String
named none = ""
named (some r) = r.address

module _ (c : Crypto) (k : Keys c) {F : Type 0} (f : Formats) (delays : Delays F) where
  extra_options_lem :
      (agent : Config F) (s : PeerSettings c k)
      → apply_options c k (extra_options c k f delays agent) s
        ≡ ok (record s {
          monitoring_port =
              if agent.port_monitoring == 0 then s.monitoring_port else agent.port_monitoring;
          registration_delay =
              if delays.is_zero agent.registration_delay
              then s.registration_delay
              else delay_of c k f delays agent.registration_delay;
          persistent_storage_path =
              if agent.records_storage_path =ˢ ""
              then s.persistent_storage_path
              else agent.records_storage_path;
          mailbox_host_port =
              if agent.mailbox_uri =ˢ "" then s.mailbox_host_port else agent.mailbox_uri;
        })
  extra_options_lem agent s = ground arith

  -- A peer with the key, the addresses and the services of the configuration, and a valid proof that
  -- it represents the agent of the configuration, if there is one.
  pub record PeerOf (agent : Config F) (s : PeerSettings c k) : Type 0 where
    pub pair : k.PrivKey × k.NodeKey
    pub keys : key_pair_from_fetchai_key c k agent.id ≡ ok pair
    pub held : s.key_pair ≡ some pair
    pub local_address : String
    pub listens :
        f.new_multiaddr ("/ip4/" +ˢ agent.host +ˢ "/tcp/" +ˢ f.decimal agent.port)
        ≡ done local_address
    pub listens_there : s.local_multiaddr ≡ some local_address
    pub public_address : String
    pub announces :
        f.new_multiaddr ("/dns4/" +ˢ agent.host_public +ˢ "/tcp/" +ˢ f.decimal agent.port_public)
        ≡ done public_address
    pub announces_there : s.public_multiaddr ≡ some public_address
    pub peers : get_peers_addr_info f.addresses agent.entry_peers ≡ ok s.bootstrap_peers
    pub relays : s.enable_relay ≡ true
    pub delegates : s.delegate_port ≡ agent.port_delegate
    pub monitors : s.monitoring_port ≡ agent.port_monitoring
    pub mailbox : s.mailbox_host_port ≡ agent.mailbox_uri
    pub stores : s.persistent_storage_path ≡ (
        if agent.records_storage_path =ˢ ""
        then default_persistent_storage_path
        else agent.records_storage_path)
    pub waits : s.registration_delay ≡ (
        if delays.is_zero agent.registration_delay
        then 0
        else delay_of c k f delays agent.registration_delay)
    pub own : s.my_agent_record ≡ map_record agent.agent_record
    pub own_address : s.my_agent_address ≡ named agent.agent_record
    pub represented : (r : AgentRecord) → s.my_agent_record ≡ some r → Represented c k pair.1 r

  -- The settings of a peer after all its options.
  abbrev peer_settings :
      Config F → String → String → k.PrivKey × k.NodeKey → List AddrInfo → PeerSettings c k
  peer_settings agent a b pair peers = record (new_settings c k) {
    local_multiaddr = some a;
    host = agent.host;
    port = agent.port;
    public_multiaddr = some b;
    public_host = agent.host_public;
    public_port = agent.port_public;
    key_pair = some pair;
    enable_relay = true;
    delegate_port = agent.port_delegate;
    bootstrap_peers = peers;
  }

  cons-ok :
      (o : PeerOption c k) (os : List (PeerOption c k)) (s u : PeerSettings c k)
      → apply_options c k (o ∷ os) s ≡ ok u
      → (t : PeerSettings c k) × (o s ≡ ok t) × (apply_options c k os t ≡ ok u)
  cons-ok o os s u e = bind-eq-ok (o s) (apply_options c k os) e

  abbrev last_options : Config F → List (PeerOption c k)
  last_options agent =
      peer_record c k f delays agent.agent_record ++ extra_options c k f delays agent

  abbrev from_entries : Config F → List (PeerOption c k)
  from_entries agent = bootstrap_from c k f agent.entry_peers ∷ last_options agent

  abbrev from_services : Config F → List (PeerOption c k)
  from_services agent =
      enable_relay_service c k
      ∷ enable_delegate_service c k agent.port_delegate
      ∷ from_entries agent

  abbrev from_identity : Config F → List (PeerOption c k)
  from_identity agent = identity_from_fetchai_key c k agent.id ∷ from_services agent

  abbrev from_public : Config F → List (PeerOption c k)
  from_public agent = public_uri c k f agent.host_public agent.port_public ∷ from_identity agent

  -- What the options that may fail have found.
  abbrev Found : Config F → String → String → k.PrivKey × k.NodeKey → List AddrInfo → Type 0
  Found agent a b pair peers =
      (f.new_multiaddr ("/ip4/" +ˢ agent.host +ˢ "/tcp/" +ˢ f.decimal agent.port) ≡ done a)
      × (f.new_multiaddr ("/dns4/" +ˢ agent.host_public +ˢ "/tcp/" +ˢ f.decimal agent.port_public)
          ≡ done b)
      × (key_pair_from_fetchai_key c k agent.id ≡ ok pair)
      × (get_peers_addr_info f.addresses agent.entry_peers ≡ ok peers)

  found :
      (agent : Config F) (s u : PeerSettings c k)
      → apply_options c k (peer_options c k f delays agent) s ≡ ok u
      → (a b : String) × (pair : k.PrivKey × k.NodeKey) × (peers : List AddrInfo) × Found agent a b
          pair peers
  found agent s u e =
      let (t1, o1, e1) =
        bind-eq-ok (local_uri c k f agent.host agent.port s) (apply_options c k (from_public agent))
          e in
      let (t2, o2, e2) =
        bind-eq-ok (public_uri c k f agent.host_public agent.port_public t1)
          (apply_options c k (from_identity agent)) e1 in
      let (t3, o3, e3) =
        bind-eq-ok (identity_from_fetchai_key c k agent.id t2)
          (apply_options c k (from_services agent)) e2 in
      let (t6, o6, e6) =
        bind-eq-ok
          (bootstrap_from c k f agent.entry_peers
            (record t3 { enable_relay = true; delegate_port = agent.port_delegate }))
          (apply_options c k (last_options agent)) e3 in
      let (a, p, _) =
        bind-eq-ok (from_except (f.new_multiaddr (ip4 agent))) (with_local agent s) o1 in
      let (b, q, _) =
        bind-eq-ok (from_except (f.new_multiaddr (dns4 agent))) (with_public agent t1) o2 in
      let (pair, r, _) = bind-eq-ok (key_pair_from_fetchai_key c k agent.id) (with_key t2) o3 in
      let (peers, l, _) =
        bind-eq-ok (get_peers_addr_info f.addresses agent.entry_peers)
          (with_peers (record t3 { enable_relay = true; delegate_port = agent.port_delegate }))
          o6 in
      (a, b, pair, peers, (from_except-eq-ok _ p, from_except-eq-ok _ q, r, l))
    where
      ip4 : Config F → String
      ip4 g = "/ip4/" +ˢ g.host +ˢ "/tcp/" +ˢ f.decimal g.port

      dns4 : Config F → String
      dns4 g = "/dns4/" +ˢ g.host_public +ˢ "/tcp/" +ˢ f.decimal g.port_public

      with_local : Config F → PeerSettings c k → String → Result (PeerSettings c k)
      with_local g t x = ok (record t { local_multiaddr = some x; host = g.host; port = g.port })

      with_public : Config F → PeerSettings c k → String → Result (PeerSettings c k)
      with_public g t x = ok (record t {
        public_multiaddr = some x;
        public_host = g.host_public;
        public_port = g.port_public;
      })

      with_key : PeerSettings c k → k.PrivKey × k.NodeKey → Result (PeerSettings c k)
      with_key t x = ok (record t { key_pair = some x })

      with_peers : PeerSettings c k → List AddrInfo → Result (PeerSettings c k)
      with_peers t x = ok (record t { bootstrap_peers = x })

  abbrev with_extra : Config F → PeerSettings c k → PeerSettings c k
  with_extra agent s = record s {
    monitoring_port =
        if agent.port_monitoring == 0 then s.monitoring_port else agent.port_monitoring;
    registration_delay =
        if delays.is_zero agent.registration_delay
        then s.registration_delay
        else delay_of c k f delays agent.registration_delay;
    persistent_storage_path =
        if agent.records_storage_path =ˢ ""
        then s.persistent_storage_path
        else agent.records_storage_path;
    mailbox_host_port = if agent.mailbox_uri =ˢ "" then s.mailbox_host_port else agent.mailbox_uri;
  }

  -- The settings of a peer after all its options.
  abbrev all_settings :
      Config F
      → Option AgentRecord
      → String
      → String
      → k.PrivKey × k.NodeKey
      → List AddrInfo
      → PeerSettings c k
  all_settings agent o a b pair peers =
      with_extra agent (record (peer_settings agent a b pair peers) {
        my_agent_address = named o;
        my_agent_record = map_record o;
      })

  last_options_lem :
      (agent : Config F) (o : Option AgentRecord) (a b : String) (pair : k.PrivKey × k.NodeKey)
      (peers : List AddrInfo)
      → apply_options c k
          (peer_record c k f delays o ++ extra_options c k f delays agent)
          (peer_settings agent a b pair peers)
        ≡ ok (all_settings agent o a b pair peers)
  last_options_lem agent none a b pair peers = extra_options_lem agent _
  last_options_lem agent (some r) a b pair peers = extra_options_lem agent _

  -- The settings that pass the checks.
  applied :
      (agent : Config F) (s : PeerSettings c k) (a b : String) (pair : k.PrivKey × k.NodeKey)
      (peers : List AddrInfo)
      → Found agent a b pair peers
      → configure_peer c k (peer_options c k f delays agent) ≡ ok s
      → (check_own_record c k pair.1 (map_record agent.agent_record) ≡ ok tt)
        × (all_settings agent agent.agent_record a b pair peers ≡ s)
  unfolding configure_peer check_settings
  applied agent s a b pair peers (p, q, r, l) e =
      let e1 = rw (p, q, r, l, last_options_lem agent agent.agent_record a b pair peers) at e in
      let t = all_settings agent agent.agent_record a b pair peers in
      let (u, checked, same) = bind-eq-ok (check_settings c k t) (λ _. ok t) e1 in (checked, cc)

  own_record :
      (public_key : k.NodeKey) (o : Option AgentRecord)
      → check_own_record c k public_key o ≡ ok tt
      → (r : AgentRecord) → o ≡ some r
      → Represented c k public_key r
  own_record public_key none e r same = cc
  own_record public_key (some r') e r same =
      subst (Represented c k public_key) (some-inj same)
        (check_record-Represented c k (peer_failure c k) public_key r' e)
    where
      some-inj : {x y : AgentRecord} → some x ≡ some y → x ≡ y
      some-inj p = cc

  same_port : (n : ℕ) → (if n == 0 then 0 else n) ≡ n
  same_port n = ground arith

  same_text : (t : String) → (if t =ˢ "" then "" else t) ≡ t
  same_text t = ground (arith, eq_iff t "")

  pub peer-PeerOf :
      (agent : Config F) (s : PeerSettings c k)
      → configure_peer c k (peer_options c k f delays agent) ≡ ok s
      → PeerOf agent s
  unfolding configure_peer
  peer-PeerOf agent s e =
      let (t, opts, e1) =
        bind-eq-ok (apply_options c k (peer_options c k f delays agent) (new_settings c k))
          (λ t. check_settings c k t >> ok t) e in
      let (a, b, pair, peers, h) = found agent (new_settings c k) t opts in
      let (checked, same) = applied agent s a b pair peers h e in
      subst (PeerOf agent) same (record {
        pair = pair;
        keys = h.2;
        held = refl;
        local_address = a;
        listens = h.0;
        listens_there = refl;
        public_address = b;
        announces = h.1;
        announces_there = refl;
        peers = h.3;
        relays = refl;
        delegates = refl;
        monitors = same_port agent.port_monitoring;
        mailbox = same_text agent.mailbox_uri;
        stores = refl;
        waits = refl;
        own = refl;
        own_address = refl;
        represented = own_record pair.1 (map_record agent.agent_record) checked;
      })

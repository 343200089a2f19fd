-- ===== src/Node/Start/Laws.antt =====
-- What a peer that is set up has done: it has loaded its records, met its bootstrap peers, and announced
-- the addresses that it serves.
use mathlib.Core.Path.{subst}
use open_acn.Base.{
  String, Bool, true, false, List, [], ◌∷◌, ◌++◌, ok, Exec, ◌>>◌, ◌≡◌, inl, inr, ap, sym, ◌∙◌, ◌=ˢ◌,
  bind-eq-ok,
}
use open_acn.Base.GoMap.{has, lookup}
use open_acn.Por.Signing.{Keys}
use open_acn.Peer.State.{Environment}
use open_acn.Peer.Announce.{is_address_announced}
use open_acn.Peer.Announce.Laws.{AllProvided}
use open_acn.Node.Addresses.{AddrInfo}
use open_acn.Node.Bootstrap.{Host}
use open_acn.Node.Settings.{PeerSettings}
use open_acn.Node.Close.{Running}
use open_acn.Node.Start.{
  no_host, Setup, join_network, load_and_announce, aea_notif_stream, aea_address_stream,
  aea_envelope_stream, create_node, set_up, fresh, serve,
}
use open_acn.Node.Start.Steps.{ids, relay_handlers, join_network-eq-ok, joined_host, handling}
use open_acn.Node.Start.Serving.{view, serving, serve-view}
use open_acn.Node.Start.Creating.{host_up, create_node-view}
use open_acn.Node.Start.Announcing.{
  IsKnown, IsAnnounced, load_and_announce-IsAnnounced, provided_subst, carried,
}

module _ (setup : Setup) (env : Environment) where
  -- The host of a peer that started: its handlers, and the peers that it met and told.
  abbrev pub started_host : Bool → List AddrInfo → Host
  started_host relay peers = record {
    peerstore = peers;
    running = true;
    dht_running = true;
    stream_handlers =
        relay_handlers relay ++ (aea_notif_stream ∷ aea_address_stream ∷ aea_envelope_stream ∷ []);
    notified = ids peers;
  }

  started_network :
      (relay : Bool) (peers : List AddrInfo) (h : Host)
      → h ≡ host_up no_host
      → handling (aea_address_stream ∷ aea_envelope_stream ∷ []) (joined_host relay peers h)
        ≡ started_host relay peers
  started_network true peers h e =
      ap (λ g. handling (aea_address_stream ∷ aea_envelope_stream ∷ []) (joined_host true peers g))
        e
  started_network false peers h e =
      ap (λ g. handling (aea_address_stream ∷ aea_envelope_stream ∷ []) (joined_host false peers g))
        e

  module _ (k : Keys env.crypto) where
    abbrev joining : PeerSettings env.crypto k → Exec Running (Unit {0})
    joining s = join_network setup s.enable_relay s.bootstrap_peers

    abbrev loading : PeerSettings env.crypto k → Exec Running (Unit {0})
    loading s = load_and_announce setup env s.persistent_storage_path s.bootstrap_peers

    abbrev serving_all : PeerSettings env.crypto k → Exec Running (Unit {0})
    serving_all s = serve setup s.host s.delegate_port s.mailbox_host_port

    -- A new peer has marked nothing.
    fresh-AllProvided : (s : PeerSettings env.crypto k) → AllProvided env (fresh setup env k s).node
    unfolding is_address_announced has lookup
    fresh-AllProvided s b h = cc

    pub set_up-IsAnnounced :
        (s : PeerSettings env.crypto k) (t : Running) (p : AddrInfo) (ps : List AddrInfo)
        (addr : String)
        → s.bootstrap_peers ≡ p ∷ ps
        → set_up setup env k s (fresh setup env k s) ≡ (ok tt, t)
        → IsKnown setup env addr s.my_agent_address t.node
        → IsAnnounced setup env s.persistent_storage_path addr t.node
          × (t.network ≡ started_host s.enable_relay s.bootstrap_peers)
    unfolding set_up
    set_up-IsAnnounced s t p ps addr same_peers e known =
        let (x1, a, e1, f1) =
          bind-eq-ok (create_node setup env k s.key_pair)
            (λ _. joining s >> (loading s >> serving_all s)) (fresh setup env k s) t e in
        let (x2, b, e2, f2) = bind-eq-ok (joining s) (λ _. loading s >> serving_all s) a t f1 in
        let (x3, c, e3, f3) = bind-eq-ok (loading s) (λ _. serving_all s) b t f2 in
        let made = create_node-view setup env k s.key_pair (fresh setup env k s) a e1 in
        let met_all = join_network-eq-ok setup s.enable_relay s.bootstrap_peers a b e2 in
        let served = serve-view setup s.host s.delegate_port s.mailbox_host_port c t f3 in
        let own = sym (ap (λ r. r.node.my_agent_address) met_all) ∙ sym (ap (λ v. v.own) made) in
        let (done_all, network) =
          load_and_announce-IsAnnounced setup env s.persistent_storage_path addr p ps b c
            (subst (λ l. load_and_announce setup env s.persistent_storage_path l b ≡ (ok tt, c))
              same_peers e3)
            (known_of c t served s.my_agent_address b.node.my_agent_address own known)
            (provided_subst env (fresh setup env k s).node b.node
              (ap (λ v. v.announced) made ∙ ap (λ r. r.node.address_announced_map) met_all)
              (ap (λ v. v.provided) made ∙ ap (λ r. r.node.provide_calls) met_all)
              (fresh-AllProvided s)) in
        (
          carried setup env s.persistent_storage_path addr c t served done_all,
          sym (ap (λ v. v.network) served)
              ∙ ap (handling (aea_address_stream ∷ aea_envelope_stream ∷ []))
                  (network ∙ sym (ap (λ r. r.network) met_all))
              ∙ started_network s.enable_relay s.bootstrap_peers a.network
                  (sym (ap (λ v. v.network) made)),
        )
      where
        known_of :
            (c t : Running)
            → serving (view c) ≡ view t
            → (mine own : String) → own ≡ mine
            → IsKnown setup env addr mine t.node
            → IsKnown setup env addr own c.node
        known_of c t e mine own q (inl (h, named)) = inl (ap (λ a. addr =ˢ a) q ∙ h, named)
        known_of c t e mine own q (inr h) = inr (ap (λ v. has addr v.addresses) e ∙ h)

-- ===== src/Node/Run/Laws.antt =====
-- What a program that runs has done.
use mathlib.Core.Path.{subst}
use open_acn.Base.{
  String, true, false, Option, none, some, List, ◌∷◌, Except, done, fail, Result, ok, err, panic,
  ◌≡◌, inl, refl, sym, ap, ◌∙◌, ◌=ˢ◌, eq_iff, arith, ◌≢◌,
}
use open_acn.Base.Pure.{bind-eq-ok}
use open_acn.Wire.Conn.{Conn}
use open_acn.Acn.Message.{AgentRecord}
use open_acn.Aea.Config.{Config, Os, init}
use open_acn.Aea.Config.Accepts.{Accepts, configured}
use open_acn.Aea.Api.{AeaApi, connect, is_connected}
use open_acn.Por.Signing.{Keys}
use open_acn.Peer.State.{Environment}
use open_acn.Node.Addresses.{AddrInfo, get_peers_addr_info, Addresses, addr_info}
use open_acn.Node.Settings.{Formats, PeerSettings}
use open_acn.Node.Main.{Delays, NodeSettings, client, peer, main, check}
use open_acn.Node.Main.Peer.{PeerOf, named}
use open_acn.Node.Main.Laws.{NodeOf, main-NodeOf}
use open_acn.Node.Close.{Running, RunningClient}
use open_acn.Node.Start.{Setup, set_up, fresh, with_peer}
use open_acn.Node.Start.Announcing.{IsAnnounced}
use open_acn.Node.Start.Laws.{started_host, set_up-IsAnnounced}
use open_acn.Node.Run.{
  ClientLibraries, Node, peer_node, client_node, api_of, attach, started_peer, started_client,
  start_node, start_client, connected_node, configured_node, run,
}

-- Entry peers that parse are not none.
some_peers :
    (a : Addresses) (e : String) (es : List String) (l : List AddrInfo)
    → get_peers_addr_info a (e ∷ es) ≡ ok l
    → (p : AddrInfo) × (ps : List AddrInfo) × (l ≡ p ∷ ps)
unfolding get_peers_addr_info
some_peers a e es l h =
    let (p, _, h1) = bind-eq-ok (addr_info a (a.string_cast e)) _ h in
    let (ps, _, same) = bind-eq-ok (get_peers_addr_info a es) (λ ps. ok (p ∷ ps)) h1 in (p, ps, cc)

-- An agent that is connected, or that the node does without.
connect-IsConnected :
    (opened : Except Conn) (s t : AeaApi) → connect opened s ≡ (ok tt, t) → is_connected t ≡ true
unfolding connect is_connected
connect-IsConnected (done c) s t e = ground (arith, e)
connect-IsConnected (fail x) s t e = ground (arith, e)

module _ (env : Environment) (k : Keys env.crypto) {F S : Type 0} (f : Formats) (delays : Delays F)
    (setup : Setup) (libraries : ClientLibraries S) (unopened : Conn) (opened : Except Conn) where
  -- The peer with these settings runs, and the agent is connected.
  abbrev Runs : PeerSettings env.crypto k → AeaApi → Running → Type 0
  Runs s api t =
      (set_up setup env k s (fresh setup env k s) ≡ (ok tt, t)) × (is_connected api ≡ true)

  attached :
      (n m : Node) (x : Result (Unit {0}) × AeaApi) (api : AeaApi)
      → some (check (attach n x)) ≡ some (ok (api, m))
      → (x ≡ (ok tt, api)) × (n ≡ m)
  attached n m (ok u, a) api e = (cc, cc)
  attached n m (err y, a) api e = cc
  attached n m (panic, a) api e = cc

  abbrev with_agent : Config F → Option (Result Node) → Option (Result (AeaApi × Node))
  with_agent = connected_node env k f delays setup libraries unopened opened

  client_ne_peer :
      (agent : Config F) (x : Option (Result (Unit {0}) × (RunningClient × S))) (api : AeaApi)
      (t : Running)
      → with_agent agent (started_client env k f delays setup libraries unopened opened x)
        ≢ some (ok (api, peer_node t))
  client_ne_peer agent none api t e = cc
  client_ne_peer agent (some (ok _, (r, u))) api t e =
      different
        (attached (client_node r) (peer_node t) (connect opened (api_of unopened agent)) api e).1
    where
      different : client_node r ≢ peer_node t
      different q = cc
  client_ne_peer agent (some (err y, (r, u))) api t e = cc
  client_ne_peer agent (some (panic, (r, u))) api t e = cc

  peer-Runs :
      (agent : Config F) (s : PeerSettings env.crypto k) (x : Result (Unit {0}) × Running)
      (api : AeaApi) (t : Running)
      → with_agent agent (
          some
            (started_peer env k f delays setup libraries unopened opened (with_peer setup env k x)))
        ≡ some (ok (api, peer_node t))
      → (x ≡ (ok tt, t)) × (is_connected api ≡ true)
  peer-Runs agent s (ok _, u) api t e =
      let (joined, same) =
        attached (peer_node u) (peer_node t) (connect opened (api_of unopened agent)) api e in
      (cc, connect-IsConnected opened (api_of unopened agent) api joined)
  peer-Runs agent s (err y, u) api t e = cc
  peer-Runs agent s (panic, u) api t e = cc

  started-Runs :
      (agent : Config F) (n : NodeSettings env.crypto k) (api : AeaApi) (t : Running)
      → with_agent agent (start_node env k f delays setup libraries unopened opened n)
        ≡ some (ok (api, peer_node t))
      → (s : PeerSettings env.crypto k) × (n ≡ peer s) × Runs s api t
  unfolding start_node
  started-Runs agent (peer s) api t e =
      (s, refl, peer-Runs agent s (set_up setup env k s (fresh setup env k s)) api t e)
  started-Runs agent (client s) api t e = go s.my_agent_record e
    where
      go :
          (o : Option AgentRecord)
          → with_agent agent (start_client env k f delays setup libraries unopened opened s o)
            ≡ some (ok (api, peer_node t))
          → (u : PeerSettings env.crypto k) × (client s ≡ peer u) × Runs u api t
      go none q = cc
      go (some r) q = absurd (client_ne_peer agent _ api t q)

  abbrev pub Joined : Os F → Config F → AgentRecord → AeaApi → Running → Type 0
  Joined os agent r api t =
      Accepts os
      × (is_connected api ≡ true)
      × (s : PeerSettings env.crypto k) × PeerOf env.crypto k f delays (configured os agent) s
      × IsAnnounced setup env s.persistent_storage_path r.address t.node
      × (t.network ≡ started_host setup env s.enable_relay s.bootstrap_peers)

  -- If the program, from a fresh state, comes to run as a peer, with entry peers and an agent with an
  -- address in its configuration, then the configuration was accepted and the agent is connected; the
  -- peer has the key, the addresses and the services of the configuration, and a valid proof that it
  -- represents the agent; the agent's address is marked as announced, `dht.Provide` was called for
  -- it and for every other address that is marked so, where the cid can be computed, and the entry
  -- peers were met and told.
  pub run-Joined :
      (os : Os F) (agent : Config F) (e : String) (es : List String) (r : AgentRecord)
      (api : AeaApi) (t : Running)
      → agent.sandbox ≡ false
      → agent.connected ≡ false
      → (configured os agent).entry_peers ≡ e ∷ es
      → (configured os agent).agent_record ≡ some r
      → (r.address =ˢ "") ≡ false
      → run env k f delays setup libraries unopened opened os agent ≡ some (ok (api, peer_node t))
      → Joined os agent r api t
  unfolding run
  run-Joined os agent e es r api t box connected entries own address h =
      go (main env.crypto k f delays os agent) refl h
    where
      announced_peer :
          (s : PeerSettings env.crypto k)
          → Runs s api t
          → PeerOf env.crypto k f delays (configured os agent) s
          → IsAnnounced setup env s.persistent_storage_path r.address t.node
            × (t.network ≡ started_host setup env s.enable_relay s.bootstrap_peers)
      announced_peer s runs o =
          let (p, ps, same) =
            some_peers f.addresses e es s.bootstrap_peers
              (ap (get_peers_addr_info f.addresses) (sym entries) ∙ o.peers) in
          let mine = ap named (sym own) ∙ sym o.own_address in
          set_up-IsAnnounced setup env k s t p ps r.address same runs.0
            (inl ((eq_iff r.address s.my_agent_address).1 mine, address))

      go :
          (m : Result (NodeSettings env.crypto k))
          → main env.crypto k f delays os agent ≡ m
          → configured_node env k f delays setup libraries unopened opened (init os agent).1 m
            ≡ some (ok (api, peer_node t))
          → Joined os agent r api t
      go (ok n) made q =
          let (s, same, runs) = started-Runs (init os agent).1 n api t q in
          let (accepts, node) = main-NodeOf env.crypto k f delays os agent n box connected made in
          let o = peer_of n s same node in
          let (announced, network) = announced_peer s runs o in
          (accepts, runs.1, s, o, announced, network)
        where
          peer_of :
              (n : NodeSettings env.crypto k) (s : PeerSettings env.crypto k)
              → n ≡ peer s
              → NodeOf env.crypto k f delays (configured os agent) n
              → PeerOf env.crypto k f delays (configured os agent) s
          peer_of n s same node =
              (subst (NodeOf env.crypto k f delays (configured os agent)) same node).1
      go (err y) made q = cc
      go panic made q = cc

-- ===== src/Node/Start/Announcing.antt =====
-- What a peer has done when it has loaded its records and announced the addresses that it serves.
use mathlib.Core.List.{Memᴰ}
use mathlib.Core.Path.{subst}
use open_acn.Base.{
  String, true, false, List, ◌∷◌, Except, done, fail, Result, ok, err, panic, Exec, ◌>>=◌, ◌>>◌,
  ◌≡◌, ◌⊎◌, inl, inr, refl, ap, sym, ◌∙◌, ◌=ˢ◌, bind-eq-ok, eq_iff, from_result,
}
use open_acn.Base.GoMap.{keys, has}
use open_acn.Wire.Word.{Bytes}
use open_acn.Storage.{Loaded, init_agent_record_persistent_storage}
use open_acn.Peer.State.{DhtPeer, Environment}
use open_acn.Peer.Announce.{is_address_announced}
use open_acn.Peer.Announce.Laws.{IsProvided, AllProvided}
use open_acn.Peer.Relay.{announce_all, announce_mine}
use open_acn.Peer.Relay.Laws.{
  all-Announces, announce_all-ok, all-announced, announce_mine-Announces, mine-announced,
}
use open_acn.Node.Addresses.{AddrInfo}
use open_acn.Node.Close.{Running}
use open_acn.Node.Start.{
  Setup, or_close, load_and_announce, storage_path, loaded, put_loaded, announce_to, initialized,
  enable, on_running,
}
use open_acn.Node.Start.Steps.{or_close-eq-ok}
use open_acn.Node.Start.Serving.{view, serving}

-- The file has been loaded into the maps of the peer.
pub record IsLoaded (setup : Setup) (env : Environment) (path : String) (s : DhtPeer) : Type 0 where
  pub file : Bytes
  pub content : Loaded
  pub opened : setup.open_file (storage_path setup path) ≡ done file
  pub parsed : init_agent_record_persistent_storage env.records setup.peer_id file ≡ ok content
  pub records : s.agent_records ≡ content.agent_records
  pub addresses : s.dht_addresses ≡ content.dht_addresses

-- What loading the file leaves as it was.
abbrev FileLoaded : Running → Running → Type 0
FileLoaded s t =
    (t.node.my_agent_address ≡ s.node.my_agent_address)
    × (t.node.address_announced_map ≡ s.node.address_announced_map)
    × (t.node.provide_calls ≡ s.node.provide_calls)

-- That every marked address was provided depends on two fields.
pub provided_subst :
    (env : Environment) (s t : DhtPeer)
    → s.address_announced_map ≡ t.address_announced_map
    → s.provide_calls ≡ t.provide_calls
    → AllProvided env s
    → AllProvided env t
unfolding is_address_announced
provided_subst env s t marks calls h b p = elim (h b (ap (has b) marks ∙ p)) [
  | inl unknown ↦ inl unknown
  | inr (cid, known, m) ↦ inr (cid, known, subst (Memᴰ cid) calls m)
]

module _ (setup : Setup) (env : Environment) where
  loaded-IsLoaded :
      (path : String) (x : Except Bytes) (s t : Running)
      → setup.open_file (storage_path setup path) ≡ x
      → loaded setup env x s ≡ (ok tt, t)
      → IsLoaded setup env path t.node × (t ≡ record s { node = t.node }) × FileLoaded s t
  loaded-IsLoaded path (fail e) s t h p = cc
  loaded-IsLoaded path (done file) s t h p =
      go (init_agent_record_persistent_storage env.records setup.peer_id file) refl p
    where
      go :
          (r : Result Loaded)
          → init_agent_record_persistent_storage env.records setup.peer_id file ≡ r
          → (from_result (initialized r) >>= λ l. on_running (λ s. (ok tt, put_loaded file l s))) s
            ≡ (ok tt, t)
          → IsLoaded setup env path t.node × (t ≡ record s { node = t.node }) × FileLoaded s t
      go (err e) q e2 = cc
      go panic q e2 = cc
      go (ok l) q e2 =
          subst
            (λ x.
              IsLoaded setup env path x.1.node
              × (x.1 ≡ record s { node = x.1.node })
              × FileLoaded s x.1)
            e2
            (
              record {
                file = file;
                content = l;
                opened = h;
                parsed = q;
                records = refl;
                addresses = refl;
              },
              refl,
              (refl, refl, refl),
            )

  -- The node after the stored addresses are announced.
  abbrev after_stored : DhtPeer → DhtPeer
  after_stored s = record (announce_all env (keys s.dht_addresses) s).1 {
    enable_address_announcement = true;
  }

  announce_to-eq-ok :
      (p : AddrInfo) (ps : List AddrInfo) (s t : Running)
      → announce_to setup env (p ∷ ps) s ≡ (ok tt, t)
      → on_running (announce_mine env) (record s { node = after_stored s.node }) ≡ (ok tt, t)
  announce_to-eq-ok p ps s t e =
      or_close-eq-ok setup (on_running (announce_mine env))
        (record s { node = after_stored s.node }) t
        (sym (
            ap
              (λ x.
                (on_running (λ _. x)
                    >> (on_running (enable setup env)
                        >> or_close setup (on_running (announce_mine env))))
                  s)
              (announce_all-ok env (keys s.node.dht_addresses) s.node))
          ∙ e)

  on_running-eq-ok :
      (m : Exec DhtPeer (Unit {0})) (s t : Running)
      → on_running m s ≡ (ok tt, t)
      → (m s.node ≡ (ok tt, t.node)) × (t ≡ record s { node = t.node })
  on_running-eq-ok m s t e =
      (go (m s.node) e, sym (ap (λ x. x.1) e) ∙ ap (λ x. record s { node = x.1.node }) e)
    where
      go :
          (x : Result (Unit {0}) × DhtPeer)
          → on_running (λ _. x) s ≡ (ok tt, t)
          → x ≡ (ok tt, t.node)
      go (ok u, n) p = ap (λ y. (y.0, y.1.node)) p
      go (err x, n) p = cc
      go (panic, n) p = cc

  -- The addresses that a peer answers for when it starts: its agent's, and those in its file.
  abbrev pub IsKnown : String → String → DhtPeer → Type 0
  IsKnown addr own s =
      ((addr =ˢ own) ≡ true) × ((addr =ˢ "") ≡ false) ⊎ (has addr s.dht_addresses ≡ true)

  stored-announced :
      (s : DhtPeer) (addr : String)
      → has addr s.dht_addresses ≡ true
      → is_address_announced addr (announce_mine env (after_stored s)).1 ≡ true
  unfolding is_address_announced
  stored-announced s addr h =
      (announce_mine-Announces env).keeps (after_stored s) addr
        (all-announced env s.dht_addresses addr s h)

  own-announced :
      (s : DhtPeer) (addr : String)
      → (addr =ˢ (after_stored s).my_agent_address) ≡ true
      → (addr =ˢ "") ≡ false
      → is_address_announced addr (announce_mine env (after_stored s)).1 ≡ true
  own-announced s addr own named =
      subst (λ a. is_address_announced a (announce_mine env (after_stored s)).1 ≡ true) (sym same)
        (mine-announced env (after_stored s) (ap (λ a. a =ˢ "") (sym same) ∙ named))
    where
      same : addr ≡ (after_stored s).my_agent_address
      same = (eq_iff addr (after_stored s).my_agent_address).0 own

  -- What announcing leaves as it was.
  after_mine :
      (s : DhtPeer)
      → (announce_mine env (after_stored s)).1 ≡ record s {
        address_announced_map = (announce_mine env (after_stored s)).1.address_announced_map;
        provide_calls = (announce_mine env (after_stored s)).1.provide_calls;
        enable_address_announcement = true;
      }
  after_mine s =
      (announce_mine-Announces env).only (after_stored s)
      ∙ ap {B = DhtPeer}
          (λ n. record n {
            address_announced_map = (announce_mine env (after_stored s)).1.address_announced_map;
            provide_calls = (announce_mine env (after_stored s)).1.provide_calls;
            enable_address_announcement = true;
          })
          ((all-Announces env (keys s.dht_addresses)).only s)

  known-announced :
      (s : DhtPeer) (addr : String)
      → IsKnown addr s.my_agent_address s
      → is_address_announced addr (announce_mine env (after_stored s)).1 ≡ true
  known-announced s addr (inr h) = stored-announced s addr h
  known-announced s addr (inl (own, named)) =
      own-announced s addr
        (ap (λ n. addr =ˢ n.my_agent_address) ((all-Announces env (keys s.dht_addresses)).only s)
          ∙ own)
        named

  after_mine-AllProvided :
      (s : DhtPeer) → AllProvided env s → AllProvided env (announce_mine env (after_stored s)).1
  unfolding is_address_announced
  after_mine-AllProvided s h =
      (announce_mine-Announces env).provides (after_stored s)
        ((all-Announces env (keys s.dht_addresses)).provides s h)

  -- The peer has loaded its file, and marked an address that it answers for as announced; it called
  -- `dht.Provide` for every address that is marked so and whose cid can be computed.
  pub record IsAnnounced (path addr : String) (n : DhtPeer) : Type 0 where
    pub loaded_from : IsLoaded setup env path n
    pub announced : is_address_announced addr n ≡ true
    pub provided : IsProvided env addr n
    pub all_provided : AllProvided env n
    pub enabled : n.enable_address_announcement ≡ true

  -- That depends on four of the peer's fields.
  pub carried :
      (path addr : String) (s t : Running)
      → serving (view s) ≡ view t
      → IsAnnounced path addr s.node
      → IsAnnounced path addr t.node
  unfolding is_address_announced
  carried path addr s t e h = record {
    loaded_from = record {
      file = h.loaded_from.file;
      content = h.loaded_from.content;
      opened = h.loaded_from.opened;
      parsed = h.loaded_from.parsed;
      records = sym (ap (λ v. v.records) e) ∙ h.loaded_from.records;
      addresses = sym (ap (λ v. v.addresses) e) ∙ h.loaded_from.addresses;
    };
    announced = subst (λ v. has addr v.announced ≡ true) e h.announced;
    provided = kept.0;
    all_provided = kept.1;
    enabled = sym (ap (λ v. v.enabled) e) ∙ h.enabled;
  }
    where
      all : AllProvided env t.node
      all =
          provided_subst env s.node t.node (ap (λ v. v.announced) e) (ap (λ v. v.provided) e)
            h.all_provided

      kept : IsProvided env addr t.node × AllProvided env t.node
      kept = (all addr (subst (λ v. has addr v.announced ≡ true) e h.announced), all)

  pub load_and_announce-IsAnnounced :
      (path addr : String) (p : AddrInfo) (ps : List AddrInfo) (s t : Running)
      → load_and_announce setup env path (p ∷ ps) s ≡ (ok tt, t)
      → IsKnown addr s.node.my_agent_address t.node
      → AllProvided env s.node
      → IsAnnounced path addr t.node × (t.network ≡ s.network)
  unfolding load_and_announce
  load_and_announce-IsAnnounced path addr p ps s t e known provided =
      let (x, u, e1, f1) =
        bind-eq-ok (loaded setup env (setup.open_file (storage_path setup path)))
          (λ _. announce_to setup env (p ∷ ps)) s t e in
      let (l, same, own) =
        loaded-IsLoaded path (setup.open_file (storage_path setup path)) s u refl e1 in
      let (m, kept) =
        on_running-eq-ok (announce_mine env) (record u { node = after_stored u.node }) t
          (announce_to-eq-ok p ps u t f1) in
      (
        finish u l own (provided_subst env s.node u.node (sym own.1) (sym own.2) provided)
            (ap (λ x. x.1) m),
        ap (λ r. r.network) kept ∙ ap (λ r. r.network) same,
      )
    where
      finish :
          (u : Running)
          → IsLoaded setup env path u.node
          → FileLoaded s u
          → AllProvided env u.node
          → (announce_mine env (after_stored u.node)).1 ≡ t.node
          → IsAnnounced path addr t.node
      finish u l (own, _, _) loaded_provided n = record {
        loaded_from = record {
          file = l.file;
          content = l.content;
          opened = l.opened;
          parsed = l.parsed;
          records = ap (λ m. m.agent_records) now ∙ l.records;
          addresses = ap (λ m. m.dht_addresses) now ∙ l.addresses;
        };
        announced = marked;
        provided = all addr marked;
        all_provided = all;
        enabled = ap (λ m. m.enable_address_announcement) now;
      }
        where
          now : t.node ≡ record u.node {
            address_announced_map =
                (announce_mine env (after_stored u.node)).1.address_announced_map;
            provide_calls = (announce_mine env (after_stored u.node)).1.provide_calls;
            enable_address_announcement = true;
          }
          now = sym n ∙ after_mine u.node

          was :
              IsKnown addr s.node.my_agent_address t.node
              → IsKnown addr u.node.my_agent_address u.node
          was (inl (mine, named)) = inl (ap (λ a. addr =ˢ a) own ∙ mine, named)
          was (inr h) = inr (sym (ap (λ m. has addr m.dht_addresses) now) ∙ h)

          all : AllProvided env t.node
          all = subst (AllProvided env) n (after_mine-AllProvided u.node loaded_provided)

          marked : is_address_announced addr t.node ≡ true
          marked =
              subst (λ m. is_address_announced addr m ≡ true) n
                (known-announced u.node addr (was known))

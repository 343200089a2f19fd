-- ===== src/Node/Start/Steps.antt =====
-- How the steps of the set-up of a peer change its state where they succeed.
use open_acn.Base.{
  String, Bool, true, false, Option, none, some, List, [], ◌∷◌, ◌++◌, append-nil, append_assoc,
  Except, done, fail, Err, Result, ok, err, panic, Exec, lift, ◌>>=◌, ◌>>◌, ◌≡◌, refl, ap, sym, ◌∙◌,
  bind_raise-ne-ok, bind-eq-ok, lift-eq-ok, and_then,
}
use open_acn.Node.Addresses.{AddrInfo}
use open_acn.Node.Bootstrap.{Host}
use open_acn.Node.Bootstrap.Laws.{bootstrap_connect_iff}
use open_acn.Node.Close.{Running, close_peer}
use open_acn.Node.Start.{
  Setup, or_close, join, written, notify_all, set_relay, join_network, aea_register_relay_stream,
  aea_notif_stream, set_stream_handler,
}

abbrev pub ids : List AddrInfo → List String
ids [] = []
ids (p ∷ ps) = p.id ∷ ids ps

-- The peer has met its bootstrap peers, and has told them that it joined.
abbrev pub met : List AddrInfo → Host → Host
met peers h = record h { peerstore = h.peerstore ++ peers }

abbrev pub told : List AddrInfo → Host → Host
told peers h = record h { notified = h.notified ++ ids peers }

abbrev pub relay_handlers : Bool → List String
relay_handlers true = aea_register_relay_stream ∷ []
relay_handlers false = []

abbrev pub handling : List String → Host → Host
handling protocols h = record h { stream_handlers = h.stream_handlers ++ protocols }

abbrev with_network : Host → Running → Running
with_network h s = record s { network = h }

abbrev pub joined_host : Bool → List AddrInfo → Host → Host
joined_host relay ps h =
    told ps (handling (aea_notif_stream ∷ []) (handling (relay_handlers relay) (met ps h)))

module _ (setup : Setup) where
  pub or_close-eq-ok :
      {A : Type 0} (m : Exec Running A) (s t : Running) {a : A}
      → or_close setup m s ≡ (ok a, t)
      → m s ≡ (ok a, t)
  or_close-eq-ok {A} m s t {a} = go (m s)
    where
      go : (x : Result A × Running) → or_close setup (λ _. x) s ≡ (ok a, t) → x ≡ (ok a, t)
      go (ok b, u) e = e
      go (err e, u) p = absurd (bind_raise-ne-ok (close_peer setup.close_error) e u p)
      go (panic, u) p = cc

  join-eq-ok :
      (ps : List AddrInfo) (s t : Running)
      → join setup ps s ≡ (ok tt, t)
      → with_network (met ps s.network) s ≡ t
  join-eq-ok [] s t e =
      ap (λ l. with_network (record s.network { peerstore = l }) s) (append-nil s.network.peerstore)
      ∙ ap (λ x. x.1) e
  join-eq-ok (p ∷ ps) s t e =
      ap (λ h. with_network h s) (sym (bootstrap_connect_iff setup.net (p ∷ ps) s.network).1)
      ∙ ap (λ x. x.1) e

  notify_all-eq-ok :
      (ps : List AddrInfo) (s t : Running)
      → notify_all setup ps s ≡ (ok tt, t)
      → with_network (told ps s.network) s ≡ t
  unfolding notify_all
  notify_all-eq-ok [] s t e =
      ap (λ l. with_network (record s.network { notified = l }) s) (append-nil s.network.notified)
      ∙ ap (λ x. x.1) e
  notify_all-eq-ok (p ∷ ps) s t e =
      ap (λ l. with_network (record s.network { notified = l }) s)
        (sym (append_assoc s.network.notified (p.id ∷ []) (ids ps)))
      ∙ notify_all-eq-ok ps (with_network (told (p ∷ []) s.network) s) t
          (first (setup.notif_stream p.id) e)
    where
      first :
          (x : Except (Option Err))
          → ((lift x >>= λ w. written setup p.id w) >> notify_all setup ps) s ≡ (ok tt, t)
          → notify_all setup ps (with_network (told (p ∷ []) s.network) s) ≡ (ok tt, t)
      first (fail e) q = cc
      first (done (some e)) q = cc
      first (done none) q = q

  -- The state after the notices.
  abbrev pub joined : Bool → List AddrInfo → Running → Running
  joined relay ps s = with_network (joined_host relay ps s.network) s

  relay_step :
      (relay : Bool) (s : Running)
      → set_relay setup relay s
        ≡ (ok tt, with_network (handling (relay_handlers relay) s.network) s)
  relay_step true s = refl
  relay_step false s =
      ap (λ l. (ok tt, with_network (record s.network { stream_handlers = l }) s))
        (sym (append-nil s.network.stream_handlers))

  abbrev tell : Bool → List AddrInfo → Exec Running (Unit {0})
  tell relay ps =
      set_relay setup relay
      >> (set_stream_handler aea_notif_stream >> or_close setup (notify_all setup ps))

  tell-eq-ok :
      (relay : Bool) (ps : List AddrInfo) (s t : Running)
      → tell relay ps s ≡ (ok tt, t)
      → with_network
          (told ps (handling (aea_notif_stream ∷ []) (handling (relay_handlers relay) s.network)))
          s
        ≡ t
  tell-eq-ok relay ps s t e = notify_all-eq-ok ps _ t (
      or_close-eq-ok (notify_all setup ps) _ t (
        sym (
          ap
            (λ x.
              and_then x
                (λ _. set_stream_handler aea_notif_stream >> or_close setup (notify_all setup ps)))
            (relay_step relay s))
        ∙ e))

  pub join_network-eq-ok :
      (relay : Bool) (ps : List AddrInfo) (s t : Running)
      → join_network setup relay ps s ≡ (ok tt, t)
      → joined relay ps s ≡ t
  unfolding join_network
  join_network-eq-ok relay ps s t e =
      let (u, v, e1, f1) =
        bind-eq-ok (or_close setup (join setup ps))
          (λ _. or_close setup (lift setup.bootstrap_dht) >> tell relay ps) s t e in
      let (u2, w, e2, f2) =
        bind-eq-ok (or_close setup (lift setup.bootstrap_dht)) (λ _. tell relay ps) v t f1 in
      ap (joined_after relay ps) (
        join-eq-ok ps s v (or_close-eq-ok (join setup ps) s v e1)
        ∙ (lift-eq-ok setup.bootstrap_dht v w (or_close-eq-ok (lift setup.bootstrap_dht) v w e2)).1)
      ∙ tell-eq-ok relay ps w t f2
    where
      joined_after : Bool → List AddrInfo → Running → Running
      joined_after relay ps s =
          with_network
            (told ps (handling (aea_notif_stream ∷ []) (handling (relay_handlers relay) s.network)))
            s

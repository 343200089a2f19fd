-- ===== src/Node/Start/Creating.antt =====
-- What the creation of the libp2p node leaves as it was.
use open_acn.Base.{
  true, Option, none, some, Except, done, fail, ok, Exec, lift, ◌>>=◌, ◌>>◌, ◌≡◌, ap,
}
use open_acn.Wire.Word.{Bytes}
use open_acn.Por.Signing.{Keys}
use open_acn.Peer.State.{Environment}
use open_acn.Node.Bootstrap.{Host}
use open_acn.Node.Close.{Running}
use open_acn.Node.Start.{Setup, create_node, session_signature, update}
use open_acn.Node.Start.Serving.{View, view}

abbrev pub host_up : Host → Host
host_up h = record h { running = true; dht_running = true }

abbrev pub up : View → View
up v = record v { network = host_up v.network }

module _ (setup : Setup) (env : Environment) (k : Keys env.crypto) where
  abbrev signing : Except Bytes → Exec Running (Unit {0})
  signing x = lift x >>= λ sig. update (λ s. record s { signature = sig })

  signing-view : (x : Except Bytes) (s t : Running) → signing x s ≡ (ok tt, t) → view s ≡ view t
  signing-view (fail e) s t p = cc
  signing-view (done b) s t p = ap (λ r. view r.1) p

  pub create_node-view :
      (key_pair : Option (k.PrivKey × k.NodeKey)) (s t : Running)
      → create_node setup env k key_pair s ≡ (ok tt, t)
      → up (view s) ≡ view t
  unfolding create_node
  create_node-view key_pair s t =
      go setup.create_host setup.create_dht setup.certificate setup.session_key key_pair
    where
      created : Running
      created = record s { network = host_up s.network }

      go :
          (host dht certificate : Except (Unit {0})) (key : Except Bytes)
          (pair : Option (k.PrivKey × k.NodeKey))
          → (do
            lift host
            update (λ s. record s { network = record s.network { running = true } })
            lift dht
            update (λ s. record s { network = record s.network { dht_running = true } })
            lift certificate
            b ← lift key
            sig ← session_signature setup env k pair b
            update (λ s. record s { signature = sig }))
              s
            ≡ (ok tt, t)
          → up (view s) ≡ view t
      go (fail e) d c b pair p = cc
      go (done _) (fail e) c b pair p = cc
      go (done _) (done _) (fail e) b pair p = cc
      go (done _) (done _) (done _) (fail e) pair p = cc
      go (done _) (done _) (done _) (done b) none p = cc
      go (done _) (done _) (done _) (done b) (some (key, public)) p =
          signing-view (k.sign key b) created t p

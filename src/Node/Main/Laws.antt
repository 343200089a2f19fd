-- ===== src/Node/Main/Laws.antt =====
-- What `main` sets up.
use mathlib.Core.Path.{subst}
use open_acn.Base.{
  false, Result, ok, err, panic, ◌≡◌, ◌≢◌, ◌⊎◌, inl, inr, refl, ◌==◌, arith, Bool-cases,
}
use open_acn.Base.Pure.{bind-eq-ok}
use open_acn.Aea.Config.{Config, Os, init}
use open_acn.Aea.Config.Accepts.{Accepts, configured}
use open_acn.Aea.Config.Laws.{init_lem}
use open_acn.Por.Crypto.{Crypto}
use open_acn.Por.Signing.{Keys}
use open_acn.Node.Settings.{Formats}
use open_acn.Node.PeerOptions.{configure_peer}
use open_acn.Node.ClientOptions.{configure_client}
use open_acn.Node.Main.{
  Delays, check, NodeSettings, client, peer, client_options, peer_options, configure_node,
  with_agent, main,
}
use open_acn.Node.Main.Peer.{PeerOf, peer-PeerOf}
use open_acn.Node.Main.Client.{ClientOf, client-ClientOf}

module _ (c : Crypto) (k : Keys c) {F : Type 0} (f : Formats) (delays : Delays F) where
  -- A client, if the node has no public port, and otherwise a peer, as the configuration says.
  abbrev pub NodeOf : Config F → NodeSettings c k → Type 0
  NodeOf agent (client s) = (agent.port_public ≡ 0) × ClientOf c k f agent s
  NodeOf agent (peer s) = (agent.port_public ≢ 0) × PeerOf c k f delays agent s

  configure_node-NodeOf :
      (agent : Config F) (n : NodeSettings c k)
      → configure_node c k f delays agent ≡ ok n
      → NodeOf agent n
  unfolding configure_node
  configure_node-NodeOf agent n e = elim (Bool-cases (agent.port_public == 0)) [
    | inl t ↦
        let (s, made, same) =
          bind-eq-ok (configure_client c k (client_options c k f delays agent)) (λ s. ok (client s))
            (rw t at e) in
        subst (NodeOf agent) (ok-inj same)
          (ground (arith), client-ClientOf c k f delays agent s made)
    | inr t ↦
        let (s, made, same) =
          bind-eq-ok (configure_peer c k (peer_options c k f delays agent)) (λ s. ok (peer s))
            (rw t at e) in
        subst (NodeOf agent) (ok-inj same)
          (λ p. ground (arith), peer-PeerOf c k f delays agent s made)
  ]
    where
      ok-inj : {x y : NodeSettings c k} → ok x ≡ ok y → x ≡ y
      ok-inj q = cc

  -- If main sets up a node from a fresh state, its configuration was accepted; the node is a client,
  -- with the key and an entry peer of the configuration and a valid proof that it represents the
  -- agent, when no public port is given, and otherwise a peer with the key, the addresses and the
  -- services of the configuration, and a valid proof that it represents the agent, if there is one.
  pub main-NodeOf :
      (os : Os F) (s : Config F) (n : NodeSettings c k)
      → s.sandbox ≡ false
      → s.connected ≡ false
      → main c k f delays os s ≡ ok n
      → Accepts os × NodeOf (configured os s) n
  unfolding main
  main-NodeOf os s n box connected e = go (init_lem os s box connected) (init os s) refl e
    where
      unchecked : (m : Result (NodeSettings c k)) → check m ≡ ok n → m ≡ ok n
      unchecked (ok a) h = h
      unchecked (err y) h = cc
      unchecked panic h = cc

      go :
          (Accepts os × (init os s ≡ (ok tt, configured os s)))
            ⊎ ((¬ Accepts os) × ((t : Config F) → init os s ≢ (ok tt, t)))
          → (x : Result (Unit {0}) × Config F) → init os s ≡ x
          → with_agent c k f delays x ≡ ok n
          → Accepts os × NodeOf (configured os s) n
      go (inl (a, p)) x q r =
          (a, configure_node-NodeOf (configured os s) n (unchecked _ (rw p at e)))
      go (inr (m, h)) (ok u, t) q r = absurd (h t q)
      go (inr (m, h)) (err y, t) q r = cc
      go (inr (m, h)) (panic, t) q r = cc

-- ===== src/Peer/Relay/Laws.antt =====
-- What a notification leads to: the addresses that the peer serves are announced.
use mathlib.Core.Path.{subst}
use open_acn.Base.{
  ◌&&◌, not, pure, if◌then◌else◌, Bool, String, ◌≡◌, ◌⊎◌, inl, inr, ◌∙◌, ap, sym, refl, true, false,
  List, [], ◌∷◌, ok, and_then, ◌=ˢ◌, ◌==◌, arith, Bool-cases, eq_iff,
}
use open_acn.Base.GoMap.{GoMap, keys, has, lookup}
use open_acn.Acn.Protocol.{ignore}
use open_acn.Peer.State.{DhtPeer, Environment}
use open_acn.Peer.Announce.{is_address_announced, register_agent_address}
use open_acn.Peer.Announce.Laws.{
  Announces, pure-Announces, ignore-Announces, bind-Announces, register-Announces,
  register_agent_address-announced, ignore-register_agent_address,
}
use open_acn.Peer.Relay.{handle_aea_notif_stream, delegated, relayed, announce_mine, announce_all}

-- The address is one that the peer answers for: its agent's, or that of a relay or a delegate client
-- where it serves them.
abbrev pub IsServed : String → DhtPeer → Type 0
IsServed addr s =
    ((addr =ˢ s.my_agent_address) ≡ true) × ((addr =ˢ "") ≡ false)
    ⊎ (s.enable_relay ≡ true) × (has addr s.dht_addresses ≡ true)
    ⊎ ((s.delegate_port == 0) ≡ false) × (has addr s.tcp_addresses ≡ true)

module _ (env : Environment) where
  ignored-Announces : (addr : String) → Announces env (ignore (register_agent_address env addr))
  ignored-Announces addr =
      ignore-Announces (register_agent_address env addr) (register-Announces env addr)

  pub all-Announces : (addrs : List String) → Announces env (announce_all env addrs)
  unfolding announce_all
  all-Announces [] = pure-Announces (ok tt)
  all-Announces (a ∷ addrs) =
      bind-Announces (ignore (register_agent_address env a)) (λ _. announce_all env addrs)
        (ignored-Announces a) (λ _. all-Announces addrs)

  announce_all-cons :
      (a : String) (addrs : List String) (s : DhtPeer)
      → announce_all env (a ∷ addrs) s ≡ announce_all env addrs (register_agent_address env a s).1
  unfolding announce_all
  announce_all-cons a addrs s =
      ap (λ x. and_then x (λ _. announce_all env addrs)) (ignore-register_agent_address env a s)

  pub announce_all-ok :
      (addrs : List String) (s : DhtPeer)
      → announce_all env addrs s ≡ (ok tt, (announce_all env addrs s).1)
  unfolding announce_all
  announce_all-ok [] s = refl
  announce_all-ok (a ∷ addrs) s =
      announce_all-cons a addrs s
      ∙ announce_all-ok addrs (register_agent_address env a s).1
      ∙ ap (λ x. (ok tt, x.1)) (sym (announce_all-cons a addrs s))

  pub all-announced :
      {V : Type 0} (m : GoMap V) (addr : String) (s : DhtPeer)
      → has addr m ≡ true
      → is_address_announced addr (announce_all env (keys m) s).1 ≡ true
  unfolding has lookup
  all-announced [] addr s h = cc
  all-announced ((k, v) ∷ m) addr s h =
      subst (λ x. is_address_announced addr x.1 ≡ true) (sym (announce_all-cons k (keys m) s))
        (elim (Bool-cases (k =ˢ addr)) [
          | inl p ↦ (all-Announces (keys m)).keeps (register_agent_address env k s).1 addr (
              subst (λ a. is_address_announced a (register_agent_address env k s).1 ≡ true)
                ((eq_iff k addr).0 p) (register_agent_address-announced env k s))
          | inr p ↦ all-announced m addr (register_agent_address env k s).1 (ground (arith, p, h))
        ])

  pub announce_mine-Announces : Announces env (announce_mine env)
  unfolding announce_mine
  announce_mine-Announces = record {
    keeps = λ s b h.
        (go s.my_agent_address (
            not (s.my_agent_address =ˢ "")
            && not (is_address_announced s.my_agent_address s))).keeps
          s b h;
    only = λ s.
        (go s.my_agent_address (
            not (s.my_agent_address =ˢ "") && not (is_address_announced s.my_agent_address s))).only
          s;
    provides = λ s.
        (go s.my_agent_address (
            not (s.my_agent_address =ˢ "")
            && not (is_address_announced s.my_agent_address s))).provides
          s;
  }
    where
      go :
          (a : String) (b : Bool)
          → Announces env (if b then register_agent_address env a else pure tt)
      go a true = register-Announces env a
      go a false = pure-Announces (ok tt)

  pub mine-announced :
      (s : DhtPeer)
      → (s.my_agent_address =ˢ "") ≡ false
      → is_address_announced s.my_agent_address (announce_mine env s).1 ≡ true
  unfolding announce_mine
  mine-announced s h = elim (Bool-cases (is_address_announced s.my_agent_address s)) [
    | inl p ↦ rw (h, p) p
    | inr p ↦ rw (h, p) (register_agent_address-announced env s.my_agent_address s)
  ]

  -- The states after each of the two loops.
  abbrev after_relay : DhtPeer → DhtPeer
  after_relay s = (announce_all env (relayed env s) s).1

  abbrev after_delegates : DhtPeer → DhtPeer
  after_delegates s = (announce_all env (delegated env (after_relay s)) (after_relay s)).1

  abbrev pub notified : DhtPeer → DhtPeer
  notified s = (handle_aea_notif_stream env true s).1

-- ===== src/Peer/Announce.antt =====
-- `RegisterAgentAddress`, which announces an address on the DHT.
pub mod Laws
use open_acn.Base.{
  String, ◌∷◌, Bool, true, false, Except, done, fail, Exec, ok, pure, raise, lift, ◌>>=◌, ◌>>◌, ◌≡◌,
  refl,
}
use open_acn.Base.GoMap.{has, insert, lookup-insert_self}
use open_acn.Peer.State.{
  Cid, DhtPeer, Environment, gets, modify, Provided, provided, deadline_exceeded, provide_failed,
}

unfoldable pub is_address_announced : String → DhtPeer → Bool
is_address_announced addr s = has addr s.address_announced_map

unfoldable pub set_address_announced : String → DhtPeer → DhtPeer
set_address_announced addr s = record s {
  address_announced_map = insert addr true s.address_announced_map;
}

module _ (env : Environment) where
  abbrev pub provide_result : Provided → Exec DhtPeer (Unit {0})
  provide_result provided = pure tt
  provide_result deadline_exceeded = pure tt
  provide_result (provide_failed e) = raise e

  -- `dht.Provide`, whose calls the state records.
  abbrev pub call_provide : Cid → Exec DhtPeer (Unit {0})
  call_provide cid = do
    modify (λ s. record s { provide_calls = cid ∷ s.provide_calls })
    provide_result (env.provide cid)

  abbrev pub announce : String → Bool → Exec DhtPeer (Unit {0})
  announce addr true = pure tt
  announce addr false = do
    modify (set_address_announced addr)
    address_cid ← lift (env.compute_cid addr)
    call_provide address_cid

  unfoldable pub register_agent_address : String → Exec DhtPeer (Unit {0})
  register_agent_address addr = do already ← gets (is_address_announced addr); announce addr already

  -- What a call of `dht.Provide` leaves, however it ends.
  abbrev pub called : Except Cid → DhtPeer → DhtPeer
  called (fail e) s = s
  called (done cid) s = record s { provide_calls = cid ∷ s.provide_calls }

  pub provide-state : (c : Except Cid) (s : DhtPeer) → ((lift c >>= call_provide) s).1 ≡ called c s
  provide-state (fail e) s = refl
  provide-state (done cid) s = go (env.provide cid)
    where
      go : (q : Provided) → (provide_result q (called (done cid) s)).1 ≡ called (done cid) s
      go provided = refl
      go deadline_exceeded = refl
      go (provide_failed e) = refl

  pub called-announced :
      (c : Except Cid) (b : String) (s : DhtPeer)
      → is_address_announced b (called c s) ≡ is_address_announced b s
  unfolding is_address_announced
  called-announced (fail e) b s = refl
  called-announced (done cid) b s = refl

  announce-has :
      (addr : String) (s : DhtPeer) (b : Bool)
      → is_address_announced addr s ≡ b
      → is_address_announced addr (announce addr b s).1 ≡ true
  unfolding is_address_announced set_address_announced has
  announce-has addr s true h = h
  announce-has addr s false h =
      rw
        (
          provide-state (env.compute_cid addr) (set_address_announced addr s),
          called-announced (env.compute_cid addr) addr (set_address_announced addr s),
        )
        (rw (lookup-insert_self) refl)

  -- After a registration of an address, whether it succeeded or not, the next one succeeds and does
  -- nothing: an address is announced once, and a failed announcement is not tried again.
  register_agent_address_twice :
      (addr : String) (s : DhtPeer)
      → register_agent_address addr (register_agent_address addr s).1
        ≡ (ok tt, (register_agent_address addr s).1)
  unfolding register_agent_address
  register_agent_address_twice addr s = rw (announce-has addr s (is_address_announced addr s) refl)

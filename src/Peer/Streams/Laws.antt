-- ===== src/Peer/Streams/Laws.antt =====
-- What `lookupAddressDHT` gives, over the providers that it tries.
use open_acn.Base.{
  Bool-cases, String, ◌≡◌, refl, ◌∙◌, true, false, Option, none, some, List, [], ◌∷◌, Except, done,
  fail, Err, Result, ok, err, panic, ◌=ˢ◌, inl, inr,
}
use open_acn.Wire.Conn.{Conn}
use open_acn.Wire.Pipe.{stream_pipe}
use open_acn.Acn.Protocol.Receive.{perform_address_lookup}
use open_acn.Acn.Message.{AgentRecord}
use open_acn.Por.Crypto.{Crypto}
use open_acn.Por.Check.{Verdict, is_verified, is_valid_proof_of_representation}
use open_acn.Por.PeerKeys.{id_from_fetchai_public_key}
use open_acn.Peer.State.{Cid, Environment, PeerId, Provider}
use open_acn.Peer.Streams.{
  Resolved, Tried, next_provider, returning, Round, finished, returned, followed, ended,
  after_round, identified, judged, replied, try_provider, providers_loop, lookup_loop, out_of_time,
  search_providers, lookup_address_dht,
}

-- The record proves that the peer with this id represents the agent.
pub record Represents (c : Crypto) (address : String) (id : PeerId) (r : AgentRecord) : Type 0 where
  pub verdict : Verdict
  pub proof : is_valid_proof_of_representation c r address r.peer_public_key ≡ ok verdict
  pub verified : is_verified verdict ≡ true
  pub peer_id : id_from_fetchai_public_key c r.peer_public_key ≡ ok id

-- The result of a lookup is never an empty id without an error.
pub record Sound (c : Crypto) (address : String) (x : Resolved) : Type 0 where
  pub sound :
      (id : PeerId) (o : Option AgentRecord)
      → x ≡ ok (id, o)
      → (r : AgentRecord) × (o ≡ some r) × Represents c address id r

module _ (env : Environment) (address : String) where
  err-Sound : (e : Err) → Sound env.crypto address (err e)
  err-Sound e = record { sound = λ id o p. cc }

  panic-Sound : Sound env.crypto address panic
  panic-Sound = record { sound = λ id o p. cc }

  -- What a provider led to, and what a round led to: with an id there is an error.
  abbrev TriedSound : Tried → Type 0
  TriedSound (next_provider e) = Unit {0}
  TriedSound (returning r) = Sound env.crypto address r

  record Started (id : PeerId) (e : Option Err) : Type 0 where
    started : (id =ˢ "") ≡ false → (y : Err) × (e ≡ some y)

  abbrev RoundSound : Round → Type 0
  RoundSound (finished id e) = Started id e
  RoundSound (returned r) = Sound env.crypto address r

  identified-Sound :
      (r : AgentRecord) (v : Verdict)
      → is_valid_proof_of_representation env.crypto r address r.peer_public_key ≡ ok v
      → is_verified v ≡ true
      → (x : Result PeerId) → id_from_fetchai_public_key env.crypto r.peer_public_key ≡ x
      → TriedSound (identified env address r x)
  identified-Sound r v p q (err e) h = err-Sound _
  identified-Sound r v p q panic h = panic-Sound
  identified-Sound r v p q (ok id) h = record {
    sound = λ i o same. (r, cc, record { verdict = v; proof = p; verified = q; peer_id = h ∙ cc });
  }

  judged-Sound :
      (r : AgentRecord) (z : Result Verdict)
      → is_valid_proof_of_representation env.crypto r address r.peer_public_key ≡ z
      → TriedSound (judged env address r z)
  judged-Sound r (err e) p = panic-Sound
  judged-Sound r panic p = panic-Sound
  judged-Sound r (ok v) p = elim (Bool-cases (is_verified v)) [
    | inl q ↦
        rw (q)
          (identified-Sound r v p q (id_from_fetchai_public_key env.crypto r.peer_public_key) refl)
    | inr q ↦ rw (q) tt
  ]

  replied-Sound : (x : Result (Option AgentRecord)) → TriedSound (replied env address x)
  replied-Sound (err e) = tt
  replied-Sound panic = panic-Sound
  replied-Sound (ok none) = panic-Sound
  replied-Sound (ok (some r)) =
      judged-Sound r (is_valid_proof_of_representation env.crypto r address r.peer_public_key) refl

  try_provider-Sound : (x : Except Conn) → TriedSound (try_provider env address x)
  try_provider-Sound (fail e) = tt
  try_provider-Sound (done c) =
      replied-Sound (perform_address_lookup env.messages stream_pipe address (some c)).0

  followed-Sound :
      (t : Tried) (next : Option Err → Round)
      → TriedSound t
      → ((y : Err) → RoundSound (next (some y)))
      → RoundSound (followed t next)
  followed-Sound (next_provider e) next h k = k e
  followed-Sound (returning r) next h k = h

  providers_loop-Sound :
      (ps : List Provider) (id : PeerId) (e : Option Err)
      → Started id e
      → RoundSound (providers_loop env address ps id e)
  unfolding providers_loop
  providers_loop-Sound [] id e h = h
  providers_loop-Sound (p ∷ ps) id e h =
      followed-Sound (try_provider env address p.stream) (providers_loop env address ps p.id)
        (try_provider-Sound p.stream)
        (λ y. providers_loop-Sound ps p.id (some y) (record { started = λ _. (y, refl) }))

  ended-Sound :
      (id : PeerId) (e : Option Err)
      → Started id e
      → (id =ˢ "") ≡ false
      → Sound env.crypto address (ended e)
  ended-Sound id (some y) h q = err-Sound y
  ended-Sound id none h q = let (y, p) = h.started q in cc

  after_round-Sound :
      (x : Round) (retry : PeerId → Option Err → Resolved)
      → RoundSound x
      → ((id : PeerId) (e : Option Err) → Started id e → Sound env.crypto address (retry id e))
      → Sound env.crypto address (after_round x retry)
  after_round-Sound (returned r) retry h k = h
  after_round-Sound (finished id e) retry h k = elim (Bool-cases (id =ˢ "")) [
    | inl q ↦ rw (q) (k id e h)
    | inr q ↦ rw (q) (ended-Sound id e h q)
  ]

  lookup_loop-Sound :
      (later : List (List Provider)) (ps : List Provider) (id : PeerId) (e : Option Err)
      → Started id e
      → Sound env.crypto address (lookup_loop env address later ps id e)
  unfolding lookup_loop
  lookup_loop-Sound [] ps id e h =
      after_round-Sound (providers_loop env address ps id e) (out_of_time env address)
        (providers_loop-Sound ps id e h) (λ i y k. err-Sound _)
  lookup_loop-Sound (next ∷ later) ps id e h =
      after_round-Sound (providers_loop env address ps id e) (lookup_loop env address later next)
        (providers_loop-Sound ps id e h) (lookup_loop-Sound later next)

  search-Sound : (x : Except Cid) → Sound env.crypto address (search_providers env address x)
  search-Sound (fail e) = err-Sound e
  search-Sound (done cid) =
      lookup_loop-Sound (env.find_providers cid).later (env.find_providers cid).first "" none
        (record { started = λ p. cc })

  -- A lookup that returns no error returns the record of the address and the id of the peer that
  -- has a valid proof of representing it, never an empty id or a nil record.
  pub lookup_address_dht-Represents :
      (id : PeerId) (o : Option AgentRecord)
      → lookup_address_dht env address ≡ ok (id, o)
      → (r : AgentRecord) × (o ≡ some r) × Represents env.crypto address id r
  unfolding lookup_address_dht
  lookup_address_dht-Represents id o h = (search-Sound (env.compute_cid address)).sound id o h

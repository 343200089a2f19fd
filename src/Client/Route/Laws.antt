-- ===== src/Client/Route/Laws.antt =====
-- Where a client's envelopes go.
use mathlib.Core.Option.{some-injective}
use open_acn.Base.Loop.{Loop, embed, loop_bind-eq-ok, ◌>>=◌}
use open_acn.Base.{
  deref, ◌=ˢ◌, eq_iff, ◌⊎◌, inl, inr, from_result, Exec, ◌⊎◌, String, ◌≡◌, refl, Bool, true, false,
  Option, none, some, done, Result, ok, err, panic, raise, lift, if◌then◌else◌,
}
use open_acn.Wire.Conn.{Conn}
use open_acn.Acn.Message.{AgentRecord, Envelope}
use open_acn.Acn.Protocol.Receive.{perform_address_lookup}
use open_acn.Common.Line.{on_new_stream}
use open_acn.Common.Proof.{proof_failure}
use open_acn.Por.Check.{Verdict, is_verified, is_valid_proof_of_representation}
use open_acn.Por.PeerKeys.{id_from_fetchai_public_key}
use open_acn.Peer.Streams.Laws.{Represents}
use open_acn.Client.Dial.{new_stream_loop_until_timeout}
use open_acn.Client.Send.Laws.{WasSent, on_stream-WasSent}
use open_acn.Client.Route.{
  stream_pipe, Loop, embed, identified, judged, resolve, relay_address, connected, send_to,
  through_relay, to_own_agent, wrong_sender, route_client_envelope,
}
use open_acn.Client.State.{StreamType, aea_address_stream, aea_envelope_stream, DhtClient}
use open_acn.Client.Send.{serialized}

module _ {S : Type 0} (client : DhtClient S) (envel : Envelope) where
  judged-ok :
      (r : AgentRecord) (v : Verdict) (id : String) (t u : S)
      → judged client envel r v t ≡ some (ok id, u)
      → (is_verified v ≡ true)
        × (id_from_fetchai_public_key client.crypto r.peer_public_key ≡ ok id)
  judged-ok r v id t u h = go (is_verified v) h
    where
      known : (x : Result String) → identified client envel x t ≡ some (ok id, u) → x ≡ ok id
      known (ok i) k = cc
      known (err e) k = cc
      known panic k = cc

      go :
          (b : Bool)
          → (if b
                then identified client envel
                    (id_from_fetchai_public_key client.crypto r.peer_public_key)
                else embed (raise (proof_failure v)))
              t
            ≡ some (ok id, u)
          → (b ≡ true) × (id_from_fetchai_public_key client.crypto r.peer_public_key ≡ ok id)
      go true k = (refl, known (id_from_fetchai_public_key client.crypto r.peer_public_key) k)
      go false k = cc

  -- The client opens a stream of the type to the peer, in some state of its agent.
  abbrev pub Opens : String → StreamType → Conn → Type 0
  Opens peer_id stream_type c =
      (t : S) × (u : S) × (new_stream_loop_until_timeout client peer_id stream_type t
        ≡ some (ok c, u))

  -- What the lookup on a stream to the relay answers.
  abbrev pub lookup_answer : Conn → Result (Option AgentRecord)
  lookup_answer c = (perform_address_lookup client.messages stream_pipe envel.to (some c)).0

  -- The record that the lookup gives represents the target at the peer with that id.
  abbrev Resolves : Result (Option AgentRecord) → String → Type 0
  Resolves x id = (r : AgentRecord) × (x ≡ ok (some r)) × Represents client.crypto envel.to id r

  resolve-Represents :
      (c : Conn) (id : String) (t u : S)
      → resolve client envel c t ≡ some (ok id, u)
      → Resolves (lookup_answer c) id
  resolve-Represents c id t u h = found (lookup_answer c) h
    where
      checked :
          (r : AgentRecord) (x : Result Verdict)
          → is_valid_proof_of_representation client.crypto r envel.to r.peer_public_key ≡ x
          → (embed (from_result x) >>= λ v. judged client envel r v) t ≡ some (ok id, u)
          → Represents client.crypto envel.to id r
      checked r (ok v) p k =
          let (q, w) = judged-ok r v id t u k in
          record { verdict = v; proof = p; verified = q; peer_id = w }
      checked r (err e) p k = cc
      checked r panic p k = cc

      found :
          (x : Result (Option AgentRecord))
          → (embed (from_result x) >>= λ o. embed (deref o) >>= λ r.
                embed (
                  from_result
                    (is_valid_proof_of_representation client.crypto r envel.to r.peer_public_key))
                >>= λ v. judged client envel r v)
              t
            ≡ some (ok id, u)
          → Resolves x id
      found (ok none) k = cc
      found (ok (some r)) k = (
        r,
        refl,
        checked r (is_valid_proof_of_representation client.crypto r envel.to r.peer_public_key) refl
            k,
      )
      found (err e) k = cc
      found panic k = cc

  -- The client looked the target up on a stream that it opened to its relay, and sent the envelope on
  -- a stream that it opened to the peer that the record of the answer names.
  pub record SentThroughRelay : Type 0 where
    pub relay_stream : Conn
    pub target : AgentRecord
    pub peer_id : String
    pub stream : Conn
    pub relay_dialled : Opens client.relay_peer aea_address_stream relay_stream
    pub relay_answer : lookup_answer relay_stream ≡ ok (some target)
    pub represents : Represents client.crypto envel.to peer_id target
    pub peer_dialled : Opens peer_id aea_envelope_stream stream
    pub was_sent : WasSent client envel stream

  -- The two ways in which `RouteEnvelope` ends without an error.
  abbrev pub Routed : Type 0
  Routed =
      ((envel.to ≡ client.my_agent_address) × (client.process_envelope ≡ none)) ⊎ SentThroughRelay

  through_relay-Routed : (s u : S) → through_relay client envel s ≡ some (ok tt, u) → Routed
  through_relay-Routed s u h =
      let (c, t1, opened, k1) =
        loop_bind-eq-ok (new_stream_loop_until_timeout client client.relay_peer aea_address_stream)
          after_dial s u h in
      let (id, t2, resolved, k2) = loop_bind-eq-ok (resolve client envel c) after_lookup t1 u k1 in
      let (_, t3, _, k3) =
        loop_bind-eq-ok (embed (lift (client.new_multiaddr (relay_address client envel id))))
          (λ _. connecting id) t2 u k2 in
      let (_, t4, _, k4) =
        loop_bind-eq-ok (embed (connected client envel id (client.connect_through_relay id)))
          (λ _. send_to client envel id) t3 u k3 in
      let (conn, t5, reached, k5) =
        loop_bind-eq-ok (new_stream_loop_until_timeout client id aea_envelope_stream) sending t4 u
          k4 in
      let (target, answer, represents) = resolve-Represents c id t1 t2 resolved in
      inr (record {
        relay_stream = c;
        target = target;
        peer_id = id;
        stream = conn;
        relay_dialled = (s, t1, opened);
        relay_answer = answer;
        represents = represents;
        peer_dialled = (t4, t5, reached);
        was_sent = on_stream-WasSent client envel conn t5 u (some-injective _ _ k5);
      })
    where
      sending : Conn → Loop S (Unit {0})
      sending c =
          embed (on_new_stream (serialized client (client.envelopes.marshal envel)) (done c))

      connecting : String → Loop S (Unit {0})
      connecting id = embed (connected client envel id (client.connect_through_relay id)) >>= λ _.
          send_to client envel id

      after_lookup : String → Loop S (Unit {0})
      after_lookup id =
          embed (lift (client.new_multiaddr (relay_address client envel id))) >>= λ _. connecting id

      after_dial : Conn → Loop S (Unit {0})
      after_dial c = resolve client envel c >>= after_lookup

  -- An envelope that a client routes without an error has the address of its agent as the sender.
  -- Either it is for that agent, which takes no envelopes, or a lookup on a stream to the relay
  -- answered with a record that is a valid proof for its target, and it was sent, and acknowledged,
  -- on a stream to the peer with the id of that record's key.
  pub route_client_envelope-Routed :
      (s u : S)
      → route_client_envelope client envel s ≡ some (ok tt, u)
      → (envel.sender ≡ client.my_agent_address) × Routed
  unfolding route_client_envelope
  route_client_envelope-Routed s u h = go (envel.sender =ˢ client.my_agent_address) refl h
    where
      own :
          (o : Option (Envelope → Exec S (Unit {0})))
          → client.process_envelope ≡ o
          → (envel.to =ˢ client.my_agent_address) ≡ true
          → to_own_agent client envel o s ≡ some (ok tt, u)
          → Routed
      own none p q k = inl ((eq_iff envel.to client.my_agent_address).0 q, p)
      own (some f) p q k =
          let (_, t, _, rest) =
            loop_bind-eq-ok (embed (f envel)) (λ _. through_relay client envel) s u k in
          through_relay-Routed t u rest

      target :
          (b : Bool)
          → (envel.to =ˢ client.my_agent_address) ≡ b
          → (if b
                then to_own_agent client envel client.process_envelope
                else through_relay client envel)
              s
            ≡ some (ok tt, u)
          → Routed
      target true q k = own client.process_envelope refl q k
      target false q k = through_relay-Routed s u k

      go :
          (b : Bool)
          → (envel.sender =ˢ client.my_agent_address) ≡ b
          → (if b
                then (if envel.to =ˢ client.my_agent_address
                    then to_own_agent client envel client.process_envelope
                    else through_relay client envel)
                else embed (raise (wrong_sender client envel)))
              s
            ≡ some (ok tt, u)
          → (envel.sender ≡ client.my_agent_address) × Routed
      go true p k = (
        (eq_iff envel.sender client.my_agent_address).0 p,
        target (envel.to =ˢ client.my_agent_address) refl k,
      )
      go false p k = cc

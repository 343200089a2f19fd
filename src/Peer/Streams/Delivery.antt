-- ===== src/Peer/Streams/Delivery.antt =====
-- The delivery of an envelope on a stream to another peer, and by `_routeEnvelopeDHTLookup`.
use open_acn.Base.{
  sym, lift-eq-ok, ap, ◌∙◌, none, inr, inl, lift, Bool-cases, bind-eq-ok, arith, false, ◌≢◌,
  attempt-eq-done, ◌≡◌, refl, true, Option, some, Except, done, fail, msg, ok, err, panic, pure,
  raise, attempt, from_result, ◌>>=◌, if◌then◌else◌,
}
use open_acn.Wire.Word.{Bytes}
use open_acn.Wire.Conn.{Conn}
use open_acn.Wire.Frame.{Stream, read_bytes, write_bytes}
use open_acn.Acn.Message.{
  AgentRecord, Envelope, StatusBody, StatusCode, is_success, aea_envelope, status, message,
}
use open_acn.Acn.Protocol.Send.{send_envelope_message, encode_acn_envelope}
use open_acn.Acn.Protocol.Receive.{read_acn_status}
use open_acn.Acn.Protocol.Envelopes.{read_acn_status_iff}
use open_acn.Common.Proof.{status_text}
use open_acn.Common.Line.{new_line, on_new_stream, on_line, open_still, Line, line_pipe}
use open_acn.Common.Line.Node.{drop_line-eq-ok, on_line-eq-ok}
use open_acn.Peer.State.{DhtPeer, Environment, PeerId}
use open_acn.Peer.Records.{get_envelope_acn_record}
use open_acn.Peer.Streams.Laws.{Represents, lookup_address_dht-Represents}
use open_acn.Peer.Streams.Same.{route_envelope_with_new_stream_same}
use open_acn.Peer.Streams.{
  serialized, sent, delivered, lookup_address_dht, Resolved, route_envelope_with_new_stream,
  with_record, route_envelope_dht_lookup,
}

-- The envelope was written to the peer on a stream to it, as one message with the sender's record,
-- and the peer's answer is a status of success.
pub record Delivered (env : Environment) (r : Option AgentRecord) (envel : Envelope) (id : PeerId)
    : Type 0 where
  pub conn : Conn
  pub envel_bytes : Bytes
  pub buf : Bytes
  pub after_write : Stream
  pub answer : Bytes
  pub after_read : Stream
  pub body : StatusBody
  pub opened : env.new_stream id ≡ done conn
  pub serialized_as : env.envelopes.marshal envel ≡ done envel_bytes
  pub encoded_as :
      env.messages.marshal
        (message (aea_envelope (record { envelope = envel_bytes; agent_record = r })))
      ≡ done buf
  pub written : write_bytes buf (some conn) ≡ (ok tt, after_write)
  pub answered : read_bytes after_write ≡ (ok answer, after_read)
  pub confirmed : env.messages.unmarshal answer ≡ done (message (status (some body)))
  pub success : is_success body.code ≡ true

module _ (env : Environment) {S : Type 0} (r : Option AgentRecord) (e : Envelope)
    (id : PeerId) where
  answered_success :
      (status_body : Option StatusBody) (t u : Line × S)
      → delivered env r status_body t ≡ (ok tt, u)
      → (body : StatusBody) × (status_body ≡ some body) × (is_success body.code ≡ true)
  answered_success none t u h = cc
  answered_success (some body) t u h = elim (Bool-cases (is_success body.code)) [
    | inl q ↦ (body, refl, q)
    | inr q ↦ absurd (failed body.code q h)
  ]
    where
      failed :
          (c : StatusCode)
          → is_success c ≡ false
          → (if is_success c then pure tt else raise (msg (status_text body))) t ≢ (ok tt, u)
      failed c q k = ground (arith, q, k)

  module _ (conn : Conn) (b : Bytes) (opened : env.new_stream id ≡ done conn)
      (serialized_as : env.envelopes.marshal e ≡ done b) where
    sent-Delivered :
        (s : S) (t u : Line × S)
        → send_envelope_message env.messages line_pipe b r (new_line conn s) ≡ (ok tt, t)
        → sent env r (done tt) t ≡ (ok tt, u)
        → Delivered env r e id
    unfolding send_envelope_message encode_acn_envelope
    sent-Delivered s t u h k =
        let (buf, t', encoded, write) =
          bind-eq-ok (lift (encode_acn_envelope env.messages b r)) line_pipe.write (new_line conn s)
            t h in
        let (encoded_as, same) =
          lift-eq-ok (encode_acn_envelope env.messages b r) (new_line conn s) t' encoded in
        let (status_body, t2, got, rest) =
          bind-eq-ok (read_acn_status env.messages line_pipe) (delivered env r) t u k in
        let (answer, read, decoded) =
          (read_acn_status_iff env.messages line_pipe status_body t t2).0 got in
        let (body, is_body, success) = answered_success status_body t2 u rest in
        record {
          conn = conn;
          envel_bytes = b;
          buf = buf;
          after_write = t.0.stream;
          answer = answer;
          after_read = t2.0.stream;
          body = body;
          opened = opened;
          serialized_as = serialized_as;
          encoded_as = encoded_as;
          written =
              on_line-eq-ok (write_bytes buf) (record { stream = some conn; ending = open_still }) s
                t (ap (on_line (write_bytes buf)) same ∙ write);
          answered = on_line-eq-ok read_bytes t.0 t.1 t2 read;
          confirmed = decoded ∙ ap (λ o. done (message (status o))) is_body;
          success = success;
        }

    serialized-Delivered :
        (s : S) (u : Line × S)
        → serialized env r (done b) (new_line conn s) ≡ (ok tt, u)
        → Delivered env r e id
    serialized-Delivered s u h =
        let (x, t, attempted, rest) =
          bind-eq-ok (attempt (send_envelope_message env.messages line_pipe b r)) (sent env r)
            (new_line conn s) u h in
        was_sent x t attempted rest
      where
        was_sent :
            (x : Except (Unit {0})) (t : Line × S)
            → attempt (send_envelope_message env.messages line_pipe b r) (new_line conn s)
              ≡ (ok x, t)
            → sent env r x t ≡ (ok tt, u)
            → Delivered env r e id
        was_sent (fail y) t p q = cc
        was_sent (done _) t p q =
            sent-Delivered s t u
              (attempt-eq-done (send_envelope_message env.messages line_pipe b r) (new_line conn s)
                t p)
              q

  -- An envelope that is routed on a new stream without an error was written on a stream to that
  -- peer as one envelope message, with the record of its sender, and the peer answered it with a
  -- status of success.
  pub route_envelope_with_new_stream-Delivered :
      (s u : S) → route_envelope_with_new_stream env r e id s ≡ (ok tt, u) → Delivered env r e id
  unfolding route_envelope_with_new_stream
  route_envelope_with_new_stream-Delivered s u h = opened (env.new_stream id) refl h
    where
      marshalled :
          (conn : Conn) (x : Except Bytes)
          → env.new_stream id ≡ done conn
          → env.envelopes.marshal e ≡ x
          → on_new_stream (serialized env r x) (done conn) s ≡ (ok tt, u)
          → Delivered env r e id
      marshalled conn (fail y) p q k = cc
      marshalled conn (done b) p q k =
          serialized-Delivered conn b p q s (serialized env r (done b) (new_line conn s)).1
            (drop_line-eq-ok (serialized env r (done b) (new_line conn s)) u k)

      opened :
          (x : Except Conn)
          → env.new_stream id ≡ x
          → on_new_stream (serialized env r (env.envelopes.marshal e)) x s ≡ (ok tt, u)
          → Delivered env r e id
      opened (fail y) p k = cc
      opened (done conn) p k = marshalled conn (env.envelopes.marshal e) p refl k

-- An envelope that the DHT lookup routes without an error was delivered to a peer that has a valid
-- proof of representing its target, with the record that the peer knows its sender by; the state of
-- the peer is as before.
pub route_envelope_dht_lookup-Delivered :
    (env : Environment) (e : Envelope) (s u : DhtPeer)
    → route_envelope_dht_lookup env e s ≡ (ok tt, u)
    → (id : PeerId) × (target : AgentRecord) × (envel_rec : Option AgentRecord) × Represents
        env.crypto e.to id target
      × (get_envelope_acn_record s e ≡ done envel_rec)
      × Delivered env envel_rec e id
      × (u ≡ s)
unfolding route_envelope_dht_lookup
route_envelope_dht_lookup-Delivered env e s u h = go (get_envelope_acn_record s e) refl h
  where
    go :
        (x : Except (Option AgentRecord))
        → get_envelope_acn_record s e ≡ x
        → with_record env e x s ≡ (ok tt, u)
        → (id : PeerId) × (target : AgentRecord) × (envel_rec : Option AgentRecord) × Represents
            env.crypto e.to id target
          × (get_envelope_acn_record s e ≡ done envel_rec)
          × Delivered env envel_rec e id
          × (u ≡ s)
    go (fail y) p k = cc
    go (done r) p k = looked (lookup_address_dht env e.to) refl k
      where
        looked :
            (z : Resolved)
            → lookup_address_dht env e.to ≡ z
            → (from_result z >>= λ found. route_envelope_with_new_stream env r e found.0) s
              ≡ (ok tt, u)
            → (id : PeerId) × (target : AgentRecord) × (envel_rec : Option AgentRecord) × Represents
                env.crypto e.to id target
              × (get_envelope_acn_record s e ≡ done envel_rec)
              × Delivered env envel_rec e id
              × (u ≡ s)
        looked (err y) q j = cc
        looked panic q j = cc
        looked (ok (id, o)) q j =
            let (target, known, represents) = lookup_address_dht-Represents env e.to id o q in
            (
              id,
              target,
              r,
              represents,
              p,
              route_envelope_with_new_stream-Delivered env r e id s u j,
              sym (ap (λ x. x.1) j) ∙ route_envelope_with_new_stream_same env r e id s,
            )

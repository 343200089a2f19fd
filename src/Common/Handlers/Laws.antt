-- ===== src/Common/Handlers/Laws.antt =====
-- What the shared handlers take from a stream and how they leave it.
use mathlib.Core.Path.{subst}
use open_acn.Base.{
  error_text, attempt, Exec, bind-eq-ok, fail, ap, String, ◌≡◌, ◌∙◌, refl, Bool, true, false,
  Option, none, some, [], ◌∷◌, Except, done, Result, ok, err, panic, and_then, pure, raise, deref,
  from_result, ◌>>=◌, ◌>>◌, bind_raise-ne-ok, if◌then◌else◌,
}
use open_acn.Wire.Word.{Bytes}
use open_acn.Acn.Message.{
  error_decode, AgentRecord, Envelope, EnvelopePerformative, AcnMessage, aea_envelope, message,
}
use open_acn.Acn.Codec.{Codec}
use open_acn.Acn.Protocol.{AcnError, ignore}
use open_acn.Acn.Protocol.Send.{send_acn_success, send_acn_error}
use open_acn.Acn.Protocol.Envelopes.{read_envelope_message_iff}
use open_acn.Por.Crypto.{Crypto}
use open_acn.Por.Check.{Verdict, is_verified, is_valid_proof_of_representation}
use open_acn.Common.Line.{Line, line_pipe}
use open_acn.Common.Handlers.{
  key_or_empty, on_node, replied, received_from_peer, closed, end_line, read_envelope_message,
  handle_aea_envelope_stream, DhtHandler, receive_envelope_from_peer, decoded_envelope, proof_error,
  checked_envelope,
}

-- The bytes hold the envelope, with a record that is a valid proof for the key of the peer at the other
-- end, or for the empty key where that key cannot be converted.
pub record Represented (crypto : Crypto) (messages : Codec AcnMessage) (envelopes : Codec Envelope)
    (remote_pubkey : Except String) (b : Bytes) (envel : Envelope) : Type 0 where
  pub payload : EnvelopePerformative
  pub agent : AgentRecord
  pub verdict : Verdict
  pub decoded : messages.unmarshal b ≡ done (message (aea_envelope payload))
  pub envelope : envelopes.unmarshal payload.envelope ≡ done envel
  pub has_record : payload.agent_record ≡ some agent
  pub proof :
      is_valid_proof_of_representation crypto agent agent.address (key_or_empty remote_pubkey)
      ≡ ok verdict
  pub verified : is_verified verdict ≡ true

-- If the handler returns, the stream is closed.
record Closes {S : Type 0} (x : Result (Unit {0}) × (Line × S)) : Type 0 where
  closes : x.0 ≡ ok tt → x.1.0.ending ≡ closed

module _ (crypto : Crypto) (messages : Codec AcnMessage) (envelopes : Codec Envelope) {S : Type 0}
    (key : Except String) where
  checked_envelope-ok :
      (envel e : Envelope) (v : Verdict) (t s' : Line × S)
      → checked_envelope crypto messages envelopes envel v t ≡ (ok e, s')
      → (is_verified v ≡ true) × (envel ≡ e) × (t ≡ s')
  checked_envelope-ok envel e v t s' h = go (is_verified v) refl h
    where
      go :
          (b : Bool)
          → is_verified v ≡ b
          → (if b
                then pure envel
                else (ignore (
                      send_acn_error messages line_pipe "incoming envelope PoR is not valid"
                        (v.0.code ∷ []))
                    >> raise (proof_error v)))
              t
            ≡ (ok e, s')
          → (is_verified v ≡ true) × (envel ≡ e) × (t ≡ s')
      go true p h' = (p, cc, cc)
      go false p h' = absurd (
          bind_raise-ne-ok
            (ignore (
              send_acn_error messages line_pipe "incoming envelope PoR is not valid"
                (v.0.code ∷ [])))
            (proof_error v) t h')

  module _ (b : Bytes) (pl : EnvelopePerformative) (e : Envelope) (t s' : Line × S)
      (decoded : messages.unmarshal b ≡ done (message (aea_envelope pl))) where
    represented :
        (envel : Envelope) (o : Option AgentRecord)
        → envelopes.unmarshal pl.envelope ≡ done envel
        → pl.agent_record ≡ o
        → (deref o >>= λ r.
              from_result (is_valid_proof_of_representation crypto r r.address (key_or_empty key))
              >>= λ v. checked_envelope crypto messages envelopes envel v)
            t
          ≡ (ok e, s')
        → Represented crypto messages envelopes key b e × (t ≡ s')
    represented envel none q p h = cc
    represented envel (some r) q p h =
        go (is_valid_proof_of_representation crypto r r.address (key_or_empty key)) refl h
      where
        go :
            (z : Result Verdict)
            → is_valid_proof_of_representation crypto r r.address (key_or_empty key) ≡ z
            → and_then (z, t) (λ v. checked_envelope crypto messages envelopes envel v) ≡ (ok e, s')
            → Represented crypto messages envelopes key b e × (t ≡ s')
        go (err y) k h' = cc
        go panic k h' = cc
        go (ok v) k h' =
            let (is_so, same, u) = checked_envelope-ok envel e v t s' h' in
            (
              record {
                payload = pl;
                agent = r;
                verdict = v;
                decoded = decoded;
                envelope = q ∙ ap done same;
                has_record = p;
                proof = k;
                verified = is_so;
              },
              u,
            )

    decoded_envelope-ok :
        (x : Except Envelope)
        → envelopes.unmarshal pl.envelope ≡ x
        → decoded_envelope crypto messages envelopes key pl x t ≡ (ok e, s')
        → Represented crypto messages envelopes key b e × (t ≡ s')
    decoded_envelope-ok (fail y) q h = absurd (
        bind_raise-ne-ok
          (ignore (
            send_acn_error messages line_pipe "while deserializing acn aea envelope message"
              (error_decode ∷ [])))
          y t h)
    decoded_envelope-ok (done envel) q h = represented envel pl.agent_record q refl h

  -- An envelope that is received from a peer is in the message that was read, with a record that is a
  -- valid proof of representation for the key of that peer, or for the empty key where the conversion
  -- of that peer's key fails; nothing else was read or written, and the state of the node is as before.
  pub receive_envelope_from_peer-Represented :
      (l l' : Line) (s s' : S) (e : Envelope)
      → receive_envelope_from_peer crypto messages envelopes key (l, s) ≡ (ok e, (l', s'))
      → (b : Bytes) × (line_pipe.read (l, s) ≡ (ok b, (l', s')))
        × Represented crypto messages envelopes key b e
  unfolding receive_envelope_from_peer
  receive_envelope_from_peer-Represented l l' s s' e h =
      let (pl, t, read, rest) =
        bind-eq-ok (read_envelope_message messages line_pipe)
          (λ pl.
            decoded_envelope crypto messages envelopes key pl (envelopes.unmarshal pl.envelope))
          (l, s) (l', s') h in
      let (b, got, decoded) = (read_envelope_message_iff messages line_pipe pl (l, s) t).0 read in
      let (r, same) =
        decoded_envelope-ok b pl e t (l', s') decoded (envelopes.unmarshal pl.envelope) refl rest in
      (b, got ∙ ap (λ u. (ok b, u)) same, r)

  module _ (handler : DhtHandler S) where
    end-Closes : (t : Line × S) → Closes (end_line closed t)
    end-Closes t = record { closes = λ p. refl }

    bind-Closes :
        {A : Type 0} (m : Exec (Line × S) A) (f : A → Exec (Line × S) (Unit {0}))
        → ((a : A) (t : Line × S) → Closes (f a t))
        → (t : Line × S) → Closes ((m >>= f) t)
    bind-Closes {A} m f h t = go (m t)
      where
        go : (x : Result A × (Line × S)) → Closes (and_then x f)
        go (ok a, u) = h a u
        go (err e, u) = record { closes = λ p. cc }
        go (panic, u) = record { closes = λ p. cc }

    replied-Closes :
        (a : Option AcnError) (t : Line × S)
        → Closes (replied crypto messages envelopes handler a t)
    replied-Closes (some e) t =
        bind-Closes
          (ignore (send_acn_error messages line_pipe (error_text e.cause) (e.error_code ∷ [])))
          (λ _. end_line closed) (λ _. end-Closes) t
    replied-Closes none t =
        bind-Closes (ignore (send_acn_success messages line_pipe)) (λ _. end_line closed)
          (λ _. end-Closes) t

    received-Closes :
        (x : Except Envelope) (t : Line × S)
        → Closes (received_from_peer crypto messages envelopes handler x t)
    received-Closes (fail e) t = end-Closes t
    received-Closes (done envel) t =
        bind-Closes (on_node (handler.handle_aea_envelope envel))
          (replied crypto messages envelopes handler) replied-Closes t

    -- A stream on which a handler of envelopes returns is closed.
    pub handle_aea_envelope_stream-closed :
        (t u : Line × S)
        → handle_aea_envelope_stream crypto messages envelopes handler key t ≡ (ok tt, u)
        → u.0.ending ≡ closed
    unfolding handle_aea_envelope_stream
    handle_aea_envelope_stream-closed t u h =
        (subst Closes h (
            bind-Closes (attempt (receive_envelope_from_peer crypto messages envelopes key))
              (received_from_peer crypto messages envelopes handler) received-Closes t)).closes
          refl

-- ===== src/Acn/Protocol/Envelopes.antt =====
-- What the readers of envelope messages and of statuses return, over any pipe.
use open_acn.Base.{
  ◌>>=◌, lift, raise, raise, ◌>>◌, ◌≡◌, ◌≢◌, ◌↔◌, ◌∙◌, ap, Option, some, [], ◌∷◌, Except, done,
  fail, Err, msg, error_text, ok, bind-eq-ok, bind_raise-ne-ok, arith,
}
use open_acn.Wire.Word.{Bytes}
use open_acn.Wire.Pipe.{Pipe}
use open_acn.Acn.Message.{
  error_unexpected_payload, error_decode, AcnMessage, EnvelopePerformative, StatusBody,
  Performative, aea_envelope, status, message, StatusCode, ◌+ˢ◌,
}
use open_acn.Acn.Codec.{Codec}
use open_acn.Acn.Protocol.{ignore}
use open_acn.Acn.Protocol.Send.{send_acn_error}
use open_acn.Acn.Protocol.Receive.{
  received_envelope, decoded_message, decode_acn_message, read_envelope_message, read_acn_status,
  acn_status_payload,
}

module _ (codec : Codec AcnMessage) {S : Type 0} (pipe : Pipe S) where
  error_reply-ne-ok :
      {A : Type 0} (code : StatusCode) (e : Err) (s u : S) {a : A}
      → (ignore (send_acn_error codec pipe (error_text e) (code ∷ [])) >> raise {A = A} e) s
        ≢ (ok a, u)
  error_reply-ne-ok code e s u =
      bind_raise-ne-ok (ignore (send_acn_error codec pipe (error_text e) (code ∷ []))) e s

  received_payload-ok :
      (p : Option Performative) (pl : EnvelopePerformative) (t s' : S)
      → received_envelope codec pipe (decoded_message codec (done (record { performative = p }))) t
        ≡ (ok pl, s')
      → (p ≡ some (aea_envelope pl)) × (t ≡ s')
  received_payload-ok (some (aea_envelope a)) pl t s' e = (cc, cc)
  received_payload-ok (some (status b)) pl t s' e = cc
  received_payload-ok o pl t s' e = absurd (
      error_reply-ne-ok error_unexpected_payload
        (msg ("unexpected ACN Message: " +ˢ codec.text (record { performative = o }))) t s' e)

  received_envelope-ok :
      (x : Except AcnMessage) (pl : EnvelopePerformative) (t s' : S)
      → received_envelope codec pipe (decoded_message codec x) t ≡ (ok pl, s')
      → (x ≡ done (message (aea_envelope pl))) × (t ≡ s')
  received_envelope-ok (fail y) pl t s' e = absurd (error_reply-ne-ok error_decode y t s' e)
  received_envelope-ok (done m) pl t s' e =
      let (p, q) = received_payload-ok m.performative pl t s' e in
      (ap (λ o. done (record { performative = o })) p, q)

  -- Reading an envelope message returns it exactly when the bytes read decode to it.
  pub read_envelope_message_iff :
      (pl : EnvelopePerformative) (s s' : S)
      → (read_envelope_message codec pipe s ≡ (ok pl, s')) ↔ (
          (b : Bytes) × (pipe.read s ≡ (ok b, s'))
          × (codec.unmarshal b ≡ done (message (aea_envelope pl))))
  unfolding read_envelope_message decode_acn_message
  read_envelope_message_iff pl s s' = (forth, λ x. back x.0 x.1 x.2)
    where
      back :
          (b : Bytes)
          → pipe.read s ≡ (ok b, s')
          → codec.unmarshal b ≡ done (message (aea_envelope pl))
          → read_envelope_message codec pipe s ≡ (ok pl, s')
      back b got d =
          rw (got, read_envelope_message)
            (ap (λ x. received_envelope codec pipe (decoded_message codec x) s') d)

      forth :
          read_envelope_message codec pipe s ≡ (ok pl, s')
          → (b : Bytes) × (pipe.read s ≡ (ok b, s'))
            × (codec.unmarshal b ≡ done (message (aea_envelope pl)))
      forth e =
          let (b, t, got, rest) =
            bind-eq-ok pipe.read
              (λ buf. received_envelope codec pipe (decode_acn_message codec buf)) s s' e in
          let (d, same) = received_envelope-ok (codec.unmarshal b) pl t s' rest in
          (b, got ∙ ap (λ u. (ok b, u)) same, d)

  acn_status_payload-ok :
      (p : Option Performative) (b : Option StatusBody) (t s' : S)
      → acn_status_payload codec pipe p t ≡ (ok b, s')
      → (p ≡ some (status b)) × (t ≡ s')
  acn_status_payload-ok (some (status a)) b t s' e = (cc, cc)
  acn_status_payload-ok _ b t s' e = cc

  -- Reading a status returns its body exactly when the bytes read decode to a status message with it.
  pub read_acn_status_iff :
      (b : Option StatusBody) (s s' : S)
      → (read_acn_status codec pipe s ≡ (ok b, s')) ↔ (
          (bytes : Bytes) × (pipe.read s ≡ (ok bytes, s'))
          × (codec.unmarshal bytes ≡ done (message (status b))))
  unfolding read_acn_status
  read_acn_status_iff b s s' = (forth, λ x. ground arith)
    where
      status_of :
          (x : Except AcnMessage) (t : S)
          → (lift x >>= λ m. acn_status_payload codec pipe m.performative) t ≡ (ok b, s')
          → (x ≡ done (message (status b))) × (t ≡ s')
      status_of (fail y) t e = cc
      status_of (done m) t e =
          let (p, q) = acn_status_payload-ok m.performative b t s' e in
          (ap (λ o. done (record { performative = o })) p, q)

      forth :
          read_acn_status codec pipe s ≡ (ok b, s')
          → (bytes : Bytes) × (pipe.read s ≡ (ok bytes, s'))
            × (codec.unmarshal bytes ≡ done (message (status b)))
      forth e =
          let (bytes, t, got, rest) =
            bind-eq-ok pipe.read
              (λ buf.
                lift (codec.unmarshal buf) >>= λ m. acn_status_payload codec pipe m.performative)
              s s' e in
          let (d, same) = status_of (codec.unmarshal bytes) t rest in
          (bytes, got ∙ ap (λ u. (ok bytes, u)) same, d)

-- ===== src/Aea/Handle/Laws.antt =====
-- What `HandleAcnMessageFromPipe` returns.
use mathlib.Core.Path.{◌∙◌}
use mathlib.Core.Logic.{◌≢◌}
use open_acn.Acn.Message.{error_decode}
use open_acn.Base.{
  error_text, attempt, [], ◌∷◌, String, ◌≡◌, refl, Bool, true, false, Option, none, some, Except,
  done, fail, Result, ok, err, panic, Exec, and_then, bind_raise-ne-ok, if◌then◌else◌, ◌=ˢ◌, deref,
  raise, msg, pure, ◌>>=◌, ◌>>◌,
}
use open_acn.Wire.Word.{Bytes}
use open_acn.Wire.Pipe.{Pipe}
use open_acn.Acn.Message.{EnvelopePerformative, AcnMessage, Envelope, StatusBody}
use open_acn.Acn.Codec.{Codec}
use open_acn.Acn.Protocol.{AcnError, StatusQueue, ignore}
use open_acn.Acn.Protocol.Send.{send_acn_success, send_acn_error}
use open_acn.Acn.Protocol.Receive.{Decoded, decode_acn_message}
use open_acn.Aea.Handle.{
  wrapped, unmarshalled, dispatch, handle_decoded, handle_acn_message_from_pipe,
}

-- The message holds the envelope, and its acknowledgement was written.
abbrev pub Acknowledged :
    Codec AcnMessage → Codec Envelope → {S : Type 0} → Pipe S → Decoded → Envelope → S → S → Type 0
Acknowledged codec envelopes pipe d e s t =
    (d.acn_error ≡ none)
    × (pl : EnvelopePerformative) × (d.envelope ≡ some pl)
    × (envelopes.unmarshal pl.envelope ≡ done e)
    × (send_acn_success codec pipe s ≡ (ok tt, t))

module _ (codec : Codec AcnMessage) (envelopes : Codec Envelope) {S : Type 0} (pipe : Pipe S)
    (queue : StatusQueue S) (counterparty : String) where
  returns_none :
      (m : Exec S (Unit {0})) (s t : S) (e : Envelope)
      → (m >>= λ _. pure {A = Option Envelope} none) s ≢ (ok (some e), t)
  returns_none m s t e = go (m s)
    where
      go :
          (r : Result Unit × S)
          → and_then r (λ _. pure {A = Option Envelope} none) ≢ (ok (some e), t)
      go (ok a, u) h = cc
      go (err x, u) h = cc
      go (panic, u) h = cc

  unmarshalled_inv :
      (x : Except Envelope) (e : Envelope) (s t : S)
      → unmarshalled codec envelopes pipe x s ≡ (ok (some e), t)
      → (x ≡ done e) × (send_acn_success codec pipe s ≡ (ok tt, t))
  unmarshalled_inv (fail y) e s t h = absurd (
      bind_raise-ne-ok
        (ignore (send_acn_error codec pipe "error on decoding envelope" (error_decode ∷ []))) y s h)
  unmarshalled_inv (done e') e s t h = go (send_acn_success codec pipe s) refl h
    where
      go :
          (r : Result Unit × S)
          → send_acn_success codec pipe s ≡ r
          → and_then r (λ _. pure (some e')) ≡ (ok (some e), t)
          → (done e' ≡ done e) × (send_acn_success codec pipe s ≡ (ok tt, t))
      go (ok a, u) p q = (cc, p ∙ cc)
      go (err x, u) p q = cc
      go (panic, u) p q = cc

  envelope_inv :
      (o : Option EnvelopePerformative) (e : Envelope) (s t : S)
      → (deref o >>= λ pl. unmarshalled codec envelopes pipe (envelopes.unmarshal pl.envelope)) s
        ≡ (ok (some e), t)
      → (pl : EnvelopePerformative) × (o ≡ some pl)
        × (envelopes.unmarshal pl.envelope ≡ done e)
        × (send_acn_success codec pipe s ≡ (ok tt, t))
  envelope_inv none e s t h = cc
  envelope_inv (some pl) e s t h =
      let (p, q) = unmarshalled_inv (envelopes.unmarshal pl.envelope) e s t h in (pl, refl, p, q)

  status_inv :
      (o : Option StatusBody) (e : Envelope) (s t : S)
      → (deref o >>= λ b.
            queue.add_acn_status_message b counterparty >>= λ _. pure {A = Option Envelope} none)
          s
        ≢ (ok (some e), t)
  status_inv none e s t h = cc
  status_inv (some b) e s t h = returns_none (queue.add_acn_status_message b counterparty) s t e h

  dispatch_inv :
      (d : Decoded) (e : Envelope) (s t : S)
      → d.acn_error ≡ none
      → dispatch codec envelopes pipe queue counterparty d s ≡ (ok (some e), t)
      → Acknowledged codec envelopes pipe d e s t
  dispatch_inv d e s t k h =
      let (pl, p, q, r) = go (d.msg_type =ˢ "aea_envelope") (d.msg_type =ˢ "status") h in
      (k, pl, p, q, r)
    where
      go :
          (b c : Bool)
          → (if b
                then (deref d.envelope >>= λ pl.
                    unmarshalled codec envelopes pipe (envelopes.unmarshal pl.envelope))
                else if c
                then (deref d.status_body >>= λ b.
                    queue.add_acn_status_message b counterparty >>= λ _.
                    pure {A = Option Envelope} none)
                else (ignore (send_acn_error codec pipe "Unsupported ACN message" [])
                    >> raise (msg "unsupported ACN message")))
              s
            ≡ (ok (some e), t)
          → (pl : EnvelopePerformative) × (d.envelope ≡ some pl)
            × (envelopes.unmarshal pl.envelope ≡ done e)
            × (send_acn_success codec pipe s ≡ (ok tt, t))
      go true c h' = envelope_inv d.envelope e s t h'
      go false true h' = absurd (status_inv d.status_body e s t h')
      go false false h' = absurd (
          bind_raise-ne-ok (ignore (send_acn_error codec pipe "Unsupported ACN message" []))
            (msg "unsupported ACN message") s h')

  handled_inv :
      (d : Decoded) (e : Envelope) (s t : S)
      → handle_decoded codec envelopes pipe queue counterparty d s ≡ (ok (some e), t)
      → Acknowledged codec envelopes pipe d e s t
  handled_inv d e s t h = go d.acn_error refl h
    where
      go :
          (o : Option AcnError)
          → d.acn_error ≡ o
          → (elim o as (λ _. Exec S (Option Envelope)) [
            | some x ↦
                ignore (send_acn_error codec pipe (error_text x.cause) (x.error_code ∷ []))
                >> raise {A = Option Envelope} (msg (error_text x.cause))
            | none ↦ dispatch codec envelopes pipe queue counterparty d
          ])
              s
            ≡ (ok (some e), t)
          → Acknowledged codec envelopes pipe d e s t
      go none k h' = dispatch_inv d e s t k h'
      go (some x) k h' = absurd (
          bind_raise-ne-ok
            (ignore (send_acn_error codec pipe (error_text x.cause) (x.error_code ∷ [])))
            (msg (error_text x.cause)) s h')

  -- An envelope that is returned is the one in the message that was read, and the last thing that
  -- was done is that a success status was written for it.
  pub handle_acn_message_from_pipe-Acknowledged :
      (s t : S) (e : Envelope)
      → handle_acn_message_from_pipe codec envelopes pipe queue counterparty s ≡ (ok (some e), t)
      → (b : Bytes) × (r : S) × (pipe.read s ≡ (ok b, r))
        × Acknowledged codec envelopes pipe (decode_acn_message codec b) e r t
  unfolding handle_acn_message_from_pipe
  handle_acn_message_from_pipe-Acknowledged s t e h = go (pipe.read s) refl h
    where
      go :
          (x : Result Bytes × S)
          → pipe.read s ≡ x
          → (attempt (λ _. x) >>= λ read. wrapped codec envelopes pipe read >>= λ data_read.
                handle_decoded codec envelopes pipe queue counterparty
                  (decode_acn_message codec data_read))
              s
            ≡ (ok (some e), t)
          → (b : Bytes) × (r : S) × (pipe.read s ≡ (ok b, r))
            × Acknowledged codec envelopes pipe (decode_acn_message codec b) e r t
      go (ok b, r) k h' = (b, r, k, handled_inv (decode_acn_message codec b) e r t h')
      go (err x, r) k h' = cc
      go (panic, r) k h' = cc

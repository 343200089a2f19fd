-- ===== src/Aea/Handle/Stable.antt =====
-- `HandleAcnMessageFromPipe` keeps what its pipe and its queue of statuses keep.
use open_acn.Base.{
  String, Option, none, some, [], ◌∷◌, Except, done, fail, msg, error_text, ok, err, pure, raise,
  deref, attempt, ◌>>=◌, ◌>>◌, ◌=ˢ◌, if_both, pipe_error,
}
use open_acn.Base.Stable.{Stable, result-Stable, deref-Stable, bind-Stable, attempt-Stable}
use open_acn.Wire.Word.{Bytes}
use open_acn.Wire.Pipe.{Pipe}
use open_acn.Acn.Message.{error_decode, StatusBody, EnvelopePerformative, AcnMessage, Envelope}
use open_acn.Acn.Codec.{Codec}
use open_acn.Acn.Protocol.{AcnError, ignore, StatusQueue}
use open_acn.Acn.Protocol.Send.{send_acn_success, send_acn_error}
use open_acn.Acn.Protocol.Receive.{Decoded, decode_acn_message}
use open_acn.Acn.Protocol.Stable.{send_acn_success-Stable, raise_after-Stable}
use open_acn.Aea.Handle.{
  wrapped, unmarshalled, dispatch, handle_decoded, handle_acn_message_from_pipe,
}

module _ (codec : Codec AcnMessage) (envelopes : Codec Envelope) {S : Type 0} (P : S → Type 0)
    (pipe : Pipe S) (queue : StatusQueue S) (writes : (b : Bytes) → Stable P (pipe.write b)) where
  wrapped-Stable : (x : Except Bytes) → Stable P (wrapped codec envelopes pipe x)
  wrapped-Stable (done b) = result-Stable P (ok b)
  wrapped-Stable (fail e) = result-Stable P (err (pipe_error e))

  unmarshalled-Stable : (x : Except Envelope) → Stable P (unmarshalled codec envelopes pipe x)
  unmarshalled-Stable (fail e) =
      raise_after-Stable codec P pipe writes "error on decoding envelope" (error_decode ∷ []) e
  unmarshalled-Stable (done e) =
      bind-Stable P (send_acn_success codec pipe) (λ _. pure (some e))
        (send_acn_success-Stable codec P pipe writes) (λ _. result-Stable P (ok (some e)))

  module _ (id : String)
      (adds : (b : StatusBody) → Stable P (queue.add_acn_status_message b id)) where
    status-Stable :
        (b : Option StatusBody)
        → Stable P
            (deref b >>= λ x. queue.add_acn_status_message x id >> pure {A = Option Envelope} none)
    status-Stable b =
        bind-Stable P (deref b) (λ x. queue.add_acn_status_message x id >> pure none)
          (deref-Stable P b)
          (λ x.
            bind-Stable P (queue.add_acn_status_message x id) (λ _. pure none) (adds x)
              (λ _. result-Stable P (ok none)))

    envelope-Stable :
        (o : Option EnvelopePerformative)
        → Stable P
            (deref o >>= λ pl. unmarshalled codec envelopes pipe (envelopes.unmarshal pl.envelope))
    envelope-Stable o =
        bind-Stable P (deref o)
          (λ pl. unmarshalled codec envelopes pipe (envelopes.unmarshal pl.envelope))
          (deref-Stable P o) (λ pl. unmarshalled-Stable (envelopes.unmarshal pl.envelope))

    dispatch-Stable : (d : Decoded) → Stable P (dispatch codec envelopes pipe queue id d)
    dispatch-Stable d =
        if_both (Stable P) (d.msg_type =ˢ "aea_envelope") _ _ (envelope-Stable d.envelope) (
          if_both (Stable P) (d.msg_type =ˢ "status") _ _ (status-Stable d.status_body) (
            raise_after-Stable codec P pipe writes "Unsupported ACN message" []
              (msg "unsupported ACN message")))

    decoded-Stable : (d : Decoded) → Stable P (handle_decoded codec envelopes pipe queue id d)
    decoded-Stable d = go d.acn_error
      where
        go :
            (o : Option AcnError)
            → Stable P (elim o [
              | some e ↦
                  ignore (send_acn_error codec pipe (error_text e.cause) (e.error_code ∷ []))
                  >> raise (msg (error_text e.cause))
              | none ↦ dispatch codec envelopes pipe queue id d
            ])
        go (some e) =
            raise_after-Stable codec P pipe writes (error_text e.cause) (e.error_code ∷ [])
              (msg (error_text e.cause))
        go none = dispatch-Stable d

    pub handle_acn_message_from_pipe-Stable :
        Stable P pipe.read → Stable P (handle_acn_message_from_pipe codec envelopes pipe queue id)
    unfolding handle_acn_message_from_pipe
    handle_acn_message_from_pipe-Stable reads =
        bind-Stable P (attempt pipe.read)
          (λ r. wrapped codec envelopes pipe r >>= λ b.
            handle_decoded codec envelopes pipe queue id (decode_acn_message codec b))
          (attempt-Stable P pipe.read reads)
          (λ r.
            bind-Stable P (wrapped codec envelopes pipe r)
              (λ b. handle_decoded codec envelopes pipe queue id (decode_acn_message codec b))
              (wrapped-Stable r) (λ b. decoded-Stable (decode_acn_message codec b)))

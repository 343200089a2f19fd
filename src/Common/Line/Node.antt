-- ===== src/Common/Line/Node.antt =====
-- Actions on a stream that leave the state of the node as it is.
use open_acn.Base.{
  String, List, pure, ◌≡◌, ◌∙◌, refl, ap, Option, none, some, Except, done, fail, Result, ok, err,
  panic, Exec, and_then, lift, deref, attempt, ◌>>=◌,
}
use open_acn.Base.Stable.{Stable}
use open_acn.Acn.Protocol.Stable.{
  send_acn_error-Stable, send_acn_success-Stable, read_agent_registration_message-Stable,
}
use open_acn.Wire.Word.{Bytes}
use open_acn.Wire.Frame.{Stream}
use open_acn.Acn.Message.{StatusCode, Performative, AgentRecord, StatusBody, AcnMessage, status}
use open_acn.Acn.Codec.{Codec}
use open_acn.Acn.Protocol.{ignore}
use open_acn.Acn.Protocol.Send.{
  send_acn_error, send_acn_success, send_envelope_message, encode_acn_envelope,
}
use open_acn.Acn.Protocol.Receive.{
  read_agent_registration_message, read_acn_status, acn_status_payload,
}
use open_acn.Common.Line.{drop_line, Line, Ending, on_line, end_line, line_pipe}

pub record KeepsNode {S A : Type 0} (m : Exec (Line × S) A) : Type 0 where
  pub kept : (t : Line × S) → (m t).1.1 ≡ t.1

module _ {S : Type 0} where
  pub bind-KeepsNode :
      {A B : Type 0} (m : Exec (Line × S) A) (f : A → Exec (Line × S) B)
      → KeepsNode m
      → ((a : A) → KeepsNode (f a))
      → KeepsNode (m >>= f)
  bind-KeepsNode {A} {B} m f h k = record { kept = λ t. go (m t) ∙ h.kept t }
    where
      go : (x : Result A × (Line × S)) → (and_then x f).1.1 ≡ x.1.1
      go (ok a, u) = (k a).kept u
      go (err e, u) = refl
      go (panic, u) = refl

  pub attempt-KeepsNode : {A : Type 0} (m : Exec (Line × S) A) → KeepsNode m → KeepsNode (attempt m)
  attempt-KeepsNode {A} m h = record { kept = λ t. go (m t) ∙ h.kept t }
    where
      go : (x : Result A × (Line × S)) → (attempt (λ _. x) x.1).1.1 ≡ x.1.1
      go (ok a, u) = refl
      go (err e, u) = refl
      go (panic, u) = refl

  pub ignore-KeepsNode : {A : Type 0} (m : Exec (Line × S) A) → KeepsNode m → KeepsNode (ignore m)
  ignore-KeepsNode m h =
      bind-KeepsNode (attempt m) (λ _. pure tt) (attempt-KeepsNode m h)
        (λ _. record { kept = λ t. refl })

  pub from_result-KeepsNode : {A : Type 0} (r : Result A) → KeepsNode {S = S} (λ t. (r, t))
  from_result-KeepsNode r = record { kept = λ t. refl }

  pub lift-KeepsNode : {A : Type 0} (x : Except A) → KeepsNode {S = S} (lift x)
  lift-KeepsNode (done a) = record { kept = λ t. refl }
  lift-KeepsNode (fail e) = record { kept = λ t. refl }

  pub deref-KeepsNode : {A : Type 0} (x : Option A) → KeepsNode {S = S} (deref x)
  deref-KeepsNode none = record { kept = λ t. refl }
  deref-KeepsNode (some a) = record { kept = λ t. refl }

  pub end_line-KeepsNode : (e : Ending) → KeepsNode {S = S} (end_line e)
  end_line-KeepsNode e = record { kept = λ t. refl }

  pub on_line-KeepsNode : {A : Type 0} (m : Exec Stream A) → KeepsNode {S = S} (on_line m)
  on_line-KeepsNode m = record { kept = λ t. refl }

  pub drop_line-eq-ok :
      {A : Type 0} (x : Result A × (Line × S)) (u : S) {a : A}
      → drop_line x ≡ (ok a, u)
      → x ≡ (ok a, x.1)
  drop_line-eq-ok (ok b, t) u h = cc
  drop_line-eq-ok (err y, t) u h = cc
  drop_line-eq-ok (panic, t) u h = cc

  pub on_line-eq-ok :
      {A : Type 0} (m : Exec Stream A) (l : Line) (s : S) (u : Line × S) {a : A}
      → on_line m (l, s) ≡ (ok a, u)
      → m l.stream ≡ (ok a, u.0.stream)
  on_line-eq-ok m l s u h = ap (λ z. (z.0, z.1.0.stream)) h

  abbrev SameNode : S → Line × S → Type 0
  SameNode s t = t.1 ≡ s

  Stable-KeepsNode :
      {A : Type 0} (m : Exec (Line × S) A) → ((s : S) → Stable (SameNode s) m) → KeepsNode m
  Stable-KeepsNode m h = record { kept = λ t. (h t.1).stable t refl }

  writes : (s : S) (b : Bytes) → Stable (SameNode s) (line_pipe.write b)
  writes s b = record { stable = λ t h. h }

  module _ (codec : Codec AcnMessage) where
    pub send_envelope_message-KeepsNode :
        (b : Bytes) (r : Option AgentRecord)
        → KeepsNode {S = S} (send_envelope_message codec line_pipe b r)
    unfolding send_envelope_message
    send_envelope_message-KeepsNode b r =
        bind-KeepsNode (lift (encode_acn_envelope codec b r)) line_pipe.write
          (lift-KeepsNode (encode_acn_envelope codec b r)) (λ buf. record { kept = λ t. refl })

    pub send_acn_error-KeepsNode :
        (text : String) (codes : List StatusCode)
        → KeepsNode {S = S} (send_acn_error codec line_pipe text codes)
    send_acn_error-KeepsNode text codes =
        Stable-KeepsNode (send_acn_error codec line_pipe text codes)
          (λ s. send_acn_error-Stable codec (SameNode s) line_pipe (writes s) text codes)

    pub send_acn_success-KeepsNode : KeepsNode {S = S} (send_acn_success codec line_pipe)
    send_acn_success-KeepsNode =
        Stable-KeepsNode (send_acn_success codec line_pipe)
          (λ s. send_acn_success-Stable codec (SameNode s) line_pipe (writes s))

    pub read_agent_registration_message-KeepsNode :
        KeepsNode {S = S} (read_agent_registration_message codec line_pipe)
    read_agent_registration_message-KeepsNode =
        Stable-KeepsNode (read_agent_registration_message codec line_pipe) (λ s.
          read_agent_registration_message-Stable codec (SameNode s) line_pipe (writes s)
            (record { stable = λ t h. h }))

    payload-KeepsNode :
        (p : Option Performative) → KeepsNode {S = S} (acn_status_payload codec line_pipe p)
    payload-KeepsNode (some (status b)) = record { kept = λ t. refl }
    payload-KeepsNode _ = record { kept = λ t. refl }

    pub read_acn_status-KeepsNode : KeepsNode {S = S} (read_acn_status codec line_pipe)
    unfolding read_acn_status
    read_acn_status-KeepsNode =
        bind-KeepsNode line_pipe.read decoded (record { kept = λ t. refl })
          (λ buf.
            bind-KeepsNode (lift (codec.unmarshal buf)) payload
              (lift-KeepsNode (codec.unmarshal buf)) (λ m. payload-KeepsNode m.performative))
      where
        payload : AcnMessage → Exec (Line × S) (Option StatusBody)
        payload m = acn_status_payload codec line_pipe m.performative

        decoded : Bytes → Exec (Line × S) (Option StatusBody)
        decoded buf = lift (codec.unmarshal buf) >>= payload

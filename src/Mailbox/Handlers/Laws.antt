-- ===== src/Mailbox/Handlers/Laws.antt =====
-- What the handlers of the mailbox guarantee.
use mathlib.Core.Path.{subst}
use open_acn.Base.{
  and_then, ◌⊎◌, inl, inr, String, true, false, not, Option, none, some, List, ◌∷◌, is_empty,
  if◌then◌else◌, ◌=ˢ◌, ◌≡◌, arith, refl, Except, done, fail, Err, Result, ok, err, panic,
  Bool-cases,
}
use open_acn.Base.GoMap.{lookup, lookup-delete, lookup-insert_self, lookup-delete_self}
use open_acn.Wire.Word.{Bytes}
use open_acn.Acn.Message.{AgentRecord, Envelope}
use open_acn.Acn.Codec.{Codec}
use open_acn.Por.Check.{Verdict, is_verified}
use open_acn.Mailbox.State.{MailboxServer, register, unregister, is_addr_registered}
use open_acn.Mailbox.Handlers.{
  bad_request, Request, Response, Written, text, respond, Server, Peer, api_register,
  api_unregister, api_send_envelope, api_get_envelope, with_body, register_decoded, checked,
}

-- When a second session registers the address of a first one and then the first one ends, the
-- second session is still open, but its address is not registered.
pub double_registration :
    (first second : String) (r : AgentRecord) (m : MailboxServer)
    → (first =ˢ second) ≡ false
    → (lookup second (unregister first r.address (register second r m)).sessions ≡ some r.address)
      × (is_addr_registered r.address (unregister first r.address (register second r m)) ≡ false)
unfolding is_addr_registered register unregister
double_registration first second r m h = (
  rw (lookup-delete, h) (lookup-insert_self second r.address m.sessions),
  rw (lookup-delete_self) refl,
)

-- The request has no session that is open.
abbrev pub HasNoSession : Request → MailboxServer → Type 0
HasNoSession req m =
    (lookup "Session-Id" req.header ≡ none)
    ⊎ ((session_id : String) × (more : List String) × (lookup "Session-Id" req.header
          ≡ some (session_id ∷ more))
        × (lookup session_id m.sessions ≡ none))

-- The answer to a request without a session, for a handler of the method.
abbrev pub refusal : String → Request → Response
refusal method req =
    respond 400
      (text (if req.method =ˢ method then "invalid session_id header" else "invalid method"))

-- The record in the body decodes, and the check accepted it.
abbrev pub Accepted : {P : Type 0} → Codec AgentRecord → Peer P → Except Bytes → Type 0
Accepted records peer body =
    (b : Bytes) × (r : AgentRecord) × (v : Verdict) × (body ≡ done b)
    × (records.unmarshal b ≡ done r)
    × (peer.check_por r ≡ ok v)
    × (is_verified v ≡ true)

module _ {P : Type 0} (p : P) where
  module _ (envelopes : Codec Envelope) (req : Request) where
    -- Without the header, or with a session that is not open, the handlers that need a session
    -- refuse a request, by its method or else for its session, and change nothing.
    no_session_refused :
        (peer : Peer P) (write_error : Option Err) (m : MailboxServer)
        → HasNoSession req m
        → (api_get_envelope envelopes write_error req (m, p) ≡ (ok (refusal "GET" req), (m, p)))
          × (api_unregister req (m, p) ≡ (ok (refusal "GET" req), (m, p)))
          × (api_send_envelope envelopes peer req (m, p) ≡ (ok (refusal "POST" req), (m, p)))
    unfolding api_get_envelope api_unregister api_send_envelope
    no_session_refused peer write_error m (inl absent) =
        (ground (arith, absent), ground (arith, absent), ground (arith, absent))
    no_session_refused peer write_error m (inr (s, more, header, closed)) = (
      ground (arith, header, closed),
      ground (arith, header, closed),
      ground (arith, header, closed),
    )

  module _ (records : Codec AgentRecord) (peer : Peer P) (uuid : String) (m : MailboxServer)
      (t : Server P) (w : Written) where
    decoded-Accepted :
        (b : Bytes) (x : Except AgentRecord)
        → records.unmarshal b ≡ x
        → register_decoded records peer uuid x (m, p) ≡ (ok (respond 200 w), t)
        → Accepted records peer (done b)
    decoded-Accepted b (fail e) q h = ground arith
    decoded-Accepted b (done r) q h = go (peer.check_por r) refl h
      where
        go :
            (c : Result Verdict)
            → peer.check_por r ≡ c
            → (and_then (c, (m, p)) (checked records peer uuid r)) ≡ (ok (respond 200 w), t)
            → Accepted records peer (done b)
        go panic k h' = cc
        go (err e) k h' = cc
        go (ok v) k h' = elim (Bool-cases (is_verified v)) [
          | inl is_so ↦ (b, r, v, refl, q, k, is_so)
          | inr not_so ↦ ground (arith, not_so)
        ]

    body-Accepted :
        (body : Except Bytes)
        → with_body body (λ b. register_decoded records peer uuid (records.unmarshal b)) (m, p)
          ≡ (ok (respond 200 w), t)
        → Accepted records peer body
    body-Accepted (fail e) h = ground arith
    body-Accepted (done b) h = elim (Bool-cases (is_empty b)) [
      | inl is_so ↦ ground (arith, is_so)
      | inr not_so ↦ decoded-Accepted b (records.unmarshal b) refl (
          subst
            (λ x.
              (if x
                  then bad_request "Empty body"
                  else register_decoded records peer uuid (records.unmarshal b))
                (m, p)
              ≡ (ok (respond 200 w), t))
            not_so h)
    ]

    -- A registration that is answered with 200 had a record that decodes and that the check of
    -- its proof of representation accepted.
    pub api_register-Accepted :
        (req : Request)
        → api_register records peer uuid req (m, p) ≡ (ok (respond 200 w), t)
        → Accepted records peer req.body
    unfolding api_register
    api_register-Accepted req h = elim (Bool-cases (req.method =ˢ "POST")) [
      | inl is_so ↦ body-Accepted req.body (
          subst
            (λ x.
              (if not x
                  then bad_request "invalid method"
                  else with_body req.body
                      (λ b. register_decoded records peer uuid (records.unmarshal b)))
                (m, p)
              ≡ (ok (respond 200 w), t))
            is_so h)
      | inr not_so ↦ ground (arith, not_so)
    ]

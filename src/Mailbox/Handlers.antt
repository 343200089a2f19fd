-- ===== src/Mailbox/Handlers.antt =====
-- The http handlers of dht/dhtpeer/mailbox.go. Each critical section of the mailbox is one step; the
-- peer behind it is an interface.
pub mod Fetch
pub mod Laws
use open_acn.Base.{
  from_result, String, ℕ, Bool, false, not, Option, none, some, List, [], ◌∷◌, is_empty,
  if◌then◌else◌, ◌=ˢ◌, Except, done, fail, Err, error_text, Result, ok, Exec, pure, crash, attempt,
  ◌>>=◌, ◌>>◌,
}
use open_acn.Base.GoMap.{GoMap, lookup}
use open_acn.Wire.Word.{Bytes}
use open_acn.Acn.Message.{AgentRecord, Envelope, is_success}
use open_acn.Acn.Codec.{Codec}
use open_acn.Por.Check.{Verdict, is_verified}
use open_acn.Mailbox.State.{MailboxServer, register, unregister, queue_of, remove_first}

-- `*http.Request`: the method, the header, and what `io.ReadAll(req.Body)` returns.
pub record Request : Type 0 where
  pub method : String
  pub header : GoMap (List String)
  pub body : Except Bytes

-- What is written to the `http.ResponseWriter`: the body of a text or of bytes.
pub data Written : Type 0 where
  nothing : Written
  text : String → Written
  bytes : Bytes → Written

-- The code is none where the handler does not call `WriteHeader`.
pub record Response : Type 0 where
  pub code : Option ℕ
  pub written : Written

abbrev pub respond : ℕ → Written → Response
respond code written = record { code = some code; written = written }

abbrev pub no_response : Response
no_response = record { code = none; written = nothing }

-- The mailbox and the rest of the peer.
abbrev pub Server : Type 0 → Type 0
Server P = MailboxServer × P

-- The methods of `*DHTPeer` that the handlers call.
pub record Peer (P : Type 0) : Type 0 where
  pub check_por : AgentRecord → Result Verdict
  pub is_address_announcement_enabled : Bool
  pub register_agent_address : String → Exec (Server P) (Unit {0})
  pub route_envelope : Envelope → Exec (Server P) (Unit {0})

module _ {P : Type 0} where
  abbrev pub bad_request : String → Exec (Server P) Response
  bad_request t = pure (respond 400 (text t))

  abbrev pub modify : (MailboxServer → MailboxServer) → Exec (Server P) (Unit {0})
  modify f (m, p) = (ok tt, (f m, p))

  abbrev pub gets : {A : Type 0} → (MailboxServer → A) → Exec (Server P) A
  gets f (m, p) = (ok (f m), (m, p))

  -- `sessionId := session_header[0]` and the address of that session.
  abbrev pub session_of : Option (List String) → Exec (Server P) (Option (String × String))
  session_of none = pure none
  session_of (some []) = crash
  session_of (some (session_id ∷ _)) = do
    addr ← gets (λ m. lookup session_id m.sessions)
    pure (elim addr [ none ↦ none | some a ↦ some (session_id, a) ])

  -- What follows a session that exists.
  abbrev pub in_session :
      (String → String → Exec (Server P) Response)
      → Option (String × String)
      → Exec (Server P) Response
  in_session f none = bad_request "invalid session_id header"
  in_session f (some (session_id, addr)) = f session_id addr

  abbrev pub with_session :
      Request → (String → String → Exec (Server P) Response) → Exec (Server P) Response
  with_session req f = do
    session ← session_of (lookup "Session-Id" req.header)
    in_session f session

  abbrev pub with_body :
      Except Bytes → (Bytes → Exec (Server P) Response) → Exec (Server P) Response
  with_body (fail e) f = bad_request (error_text e)
  with_body (done body) f = if is_empty body then bad_request "Empty body" else f body

  unfoldable pub api_unregister : Request → Exec (Server P) Response
  api_unregister req =
      if not (req.method =ˢ "GET")
      then bad_request "invalid method"
      else with_session req
          (λ session_id addr. modify (unregister session_id addr) >> pure no_response)

  unfoldable pub api_get_signature : Request → Exec (Server P) Response
  api_get_signature req =
      if not (req.method =ˢ "GET")
      then bad_request "invalid method"
      else gets (λ m. respond 200 (bytes m.signature))

  module _ (envelopes : Codec Envelope) where
    -- The first envelope leaves the queue when the write returns no error.
    abbrev pub deliver : Option Err → String → List Envelope → Exec (Server P) Response
    deliver write_error addr [] = pure (respond 200 nothing)
    deliver write_error addr (envelope ∷ _) = elim (envelopes.marshal envelope) [
      | fail e ↦ pure no_response
      | done buf ↦ elim write_error [
        | some e ↦ pure (respond 200 nothing)
        | none ↦ modify (remove_first addr) >> pure (respond 200 (bytes buf))
      ]
    ]

    -- `write_error` is the error of `res.Write`, when there is one.
    unfoldable pub api_get_envelope : Option Err → Request → Exec (Server P) Response
    api_get_envelope write_error req =
        if not (req.method =ˢ "GET")
        then bad_request "invalid method"
        else with_session req (λ session_id addr. do
          envelopes_list ← gets (queue_of addr)
          deliver write_error addr envelopes_list)

    module _ (peer : Peer P) where
      abbrev pub routed : Except (Unit {0}) → Exec (Server P) Response
      routed (fail e) = bad_request (error_text e)
      routed (done _) = pure no_response

      abbrev pub send_decoded : Except Envelope → Exec (Server P) Response
      send_decoded (fail e) = bad_request (error_text e)
      send_decoded (done envelope) = do r ← attempt (peer.route_envelope envelope); routed r

      unfoldable pub api_send_envelope : Request → Exec (Server P) Response
      api_send_envelope req =
          if not (req.method =ˢ "POST")
          then bad_request "invalid method"
          else with_session req
              (λ _ _. with_body req.body (λ body. send_decoded (envelopes.unmarshal body)))

  module _ (records : Codec AgentRecord) (peer : Peer P) (uuid : String) where
    -- `RegisterAgentAddress`, when announcements are on.
    abbrev pub announce : String → Exec (Server P) (Except (Unit {0}))
    announce addr =
        if peer.is_address_announcement_enabled
        then attempt (peer.register_agent_address addr)
        else pure (done tt)

    abbrev pub announced : AgentRecord → Except (Unit {0}) → Exec (Server P) Response
    announced r (fail e) = bad_request "failed to register address over dht"
    announced r (done _) = modify (register uuid r) >> pure (respond 200 (text uuid))

    abbrev pub checked : AgentRecord → Verdict → Exec (Server P) Response
    checked r v =
        if is_verified v
        then (do a ← announce r.address; announced r a)
        else bad_request "Invalid PoR"

    abbrev pub register_decoded : Except AgentRecord → Exec (Server P) Response
    register_decoded (fail e) = bad_request "Error on agent record deserialize"
    register_decoded (done r) = do v ← from_result (peer.check_por r); checked r v

    -- `uuid` is the new session's id, without its dashes.
    unfoldable pub api_register : Request → Exec (Server P) Response
    api_register req =
        if not (req.method =ˢ "POST")
        then bad_request "invalid method"
        else with_body req.body (λ body. register_decoded (records.unmarshal body))

-- ===== src/Acn/Protocol/Exchange.antt =====
-- What the readers of acn/utils.go return, over any pipe.
use open_acn.Base.{
  ◌∙◌, [], bind-eq-ok, ◌∷◌, ap, error_text, bind_raise-ne-ok, ◌≢◌, panic, msg, none, some, Except,
  Option, Err, String, done, ok, ◌≡◌, ◌↔◌, arith,
}
use open_acn.Wire.Word.{Bytes}
use open_acn.Wire.Pipe.{Pipe}
use open_acn.Acn.Message.{
  error_decode, error_unexpected_payload, register, status, AgentRecord, StatusCode, Performative,
  lookup_request, AcnMessage, message,
}
use open_acn.Acn.Codec.{Codec}
use open_acn.Acn.Protocol.{fail, ignore}
use open_acn.Acn.Protocol.Send.{send_acn_error, send_message}
use open_acn.Acn.Protocol.Receive.{
  decoded_registration, registration_payload, refuse, decoded_lookup_request,
  lookup_request_payload, read_lookup_response, read_agent_registration_message,
  read_lookup_request,
}

module _ (codec : Codec AcnMessage) {S : Type 0} (pipe : Pipe S) where
  -- A message that was sent is its encoding, written once.
  pub send_message-writes :
      (p : Performative) (s s' : S)
      → send_message codec pipe p s ≡ (ok tt, s')
      → (b : Bytes) × (codec.marshal (message p) ≡ done b) × (pipe.write b s ≡ (ok tt, s'))
  unfolding send_message
  send_message-writes p s s' e = ground arith

  refuse-ne-ok :
      {A : Type 0} (e : Err) (code : StatusCode) (s : S) {a : A} {u : S}
      → refuse codec pipe e code s ≢ (ok a, u)
  refuse-ne-ok {A} e code s =
      bind_raise-ne-ok (ignore (send_acn_error codec pipe (error_text e) (code ∷ []))) e s

  lookup_request_payload-ok :
      (p : Option Performative) (address : String) (t s' : S)
      → lookup_request_payload codec pipe p t ≡ (ok address, s')
      → (p ≡ some (lookup_request address)) × (t ≡ s')
  lookup_request_payload-ok (some (lookup_request a)) address t s' e = ground arith
  lookup_request_payload-ok _ address t s' e =
      absurd (refuse-ne-ok (msg "Unexpected payload") error_unexpected_payload t e)

  -- Reading a lookup request returns an address exactly when the bytes read decode to the lookup
  -- request for that address.
  pub read_lookup_request_iff :
      (address : String) (s s' : S)
      → (read_lookup_request codec pipe s ≡ (ok address, s')) ↔ (
          (b : Bytes) × (pipe.read s ≡ (ok b, s'))
          × (codec.unmarshal b ≡ done (message (lookup_request address))))
  unfolding read_lookup_request
  read_lookup_request_iff address s s' = (forth, λ x. ground arith)
    where
      decoded :
          (x : Except AcnMessage) (t : S)
          → decoded_lookup_request codec pipe x t ≡ (ok address, s')
          → (x ≡ done (message (lookup_request address))) × (t ≡ s')
      decoded (fail x) t e = absurd (refuse-ne-ok x error_decode t e)
      decoded (done m) t e =
          let (p, q) = lookup_request_payload-ok m.performative address t s' e in
          (ap (λ o. done (record { performative = o })) p, q)

      forth :
          read_lookup_request codec pipe s ≡ (ok address, s')
          → (b : Bytes) × (pipe.read s ≡ (ok b, s'))
            × (codec.unmarshal b ≡ done (message (lookup_request address)))
      forth e =
          let (b, t, got, rest) =
            bind-eq-ok pipe.read (λ buf. decoded_lookup_request codec pipe (codec.unmarshal buf)) s
              s' e in
          let (d, same) = decoded (codec.unmarshal b) t rest in
          (b, got ∙ ap (λ u. (ok b, u)) same, d)

  registration_payload-ok :
      (p : Option Performative) (r : Option AgentRecord) (t s' : S)
      → registration_payload codec pipe p t ≡ (ok r, s')
      → (p ≡ some (register r)) × (t ≡ s')
  registration_payload-ok (some (register a)) r t s' e = ground arith
  registration_payload-ok _ r t s' e =
      absurd (refuse-ne-ok (msg "Unexpected payload") error_unexpected_payload t e)

  -- Reading a registration returns a record exactly when the bytes read decode to the
  -- registration message of that record.
  pub read_agent_registration_message_iff :
      (r : Option AgentRecord) (s s' : S)
      → (read_agent_registration_message codec pipe s ≡ (ok r, s')) ↔ (
          (b : Bytes) × (pipe.read s ≡ (ok b, s'))
          × (codec.unmarshal b ≡ done (message (register r))))
  unfolding read_agent_registration_message
  read_agent_registration_message_iff r s s' = (forth, λ x. ground arith)
    where
      decoded :
          (x : Except AcnMessage) (t : S)
          → decoded_registration codec pipe x t ≡ (ok r, s')
          → (x ≡ done (message (register r))) × (t ≡ s')
      decoded (fail x) t e = absurd (refuse-ne-ok x error_decode t e)
      decoded (done m) t e =
          let (p, q) = registration_payload-ok m.performative r t s' e in
          (ap (λ o. done (record { performative = o })) p, q)

      forth :
          read_agent_registration_message codec pipe s ≡ (ok r, s')
          → (b : Bytes) × (pipe.read s ≡ (ok b, s'))
            × (codec.unmarshal b ≡ done (message (register r)))
      forth e =
          let (b, t, got, rest) =
            bind-eq-ok pipe.read (λ buf. decoded_registration codec pipe (codec.unmarshal buf)) s s'
              e in
          let (d, same) = decoded (codec.unmarshal b) t rest in
          (b, got ∙ ap (λ u. (ok b, u)) same, d)

  -- Reading a lookup response panics when the bytes read decode to a status message without a
  -- body.
  read_lookup_response_panic :
      (s s' : S) (b : Bytes)
      → pipe.read s ≡ (ok b, s')
      → codec.unmarshal b ≡ done (message (status none))
      → read_lookup_response codec pipe s ≡ (panic, s')
  unfolding read_lookup_response
  read_lookup_response_panic s s' b got decoded = rw (got, decoded)

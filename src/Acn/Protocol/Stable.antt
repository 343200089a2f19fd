-- ===== src/Acn/Protocol/Stable.antt =====
-- The protocol keeps what its pipe keeps.
use open_acn.Base.{
  String, List, [], ◌∷◌, Option, some, Except, done, fail, Err, msg, error_text, ok, err, raise,
  lift, ◌>>=◌,
}
use open_acn.Base.Stable.{Stable, result-Stable, lift-Stable, bind-Stable, dropped-Stable}
use open_acn.Wire.Pipe.{Pipe}
use open_acn.Acn.Message.{
  StatusCode, error_decode, error_unexpected_payload, Performative, register, AcnMessage, message,
}
use open_acn.Acn.Codec.{Codec}
use open_acn.Acn.Protocol.{ignore}
use open_acn.Acn.Protocol.Send.{
  send_message, send_acn_error, send_acn_success, error_status, success_status, first_code,
}
use open_acn.Acn.Protocol.Receive.{
  registration_payload, decoded_registration, read_agent_registration_message,
}
use open_acn.Wire.Word.{Bytes}

module _ (codec : Codec AcnMessage) {S : Type 0} (P : S → Type 0) (pipe : Pipe S)
    (writes : (b : Bytes) → Stable P (pipe.write b)) where
  send_message-Stable : (p : Performative) → Stable P (send_message codec pipe p)
  unfolding send_message
  send_message-Stable p =
      bind-Stable P (lift (codec.marshal (message p))) pipe.write
        (lift-Stable P (codec.marshal (message p))) writes

  pub send_acn_success-Stable : Stable P (send_acn_success codec pipe)
  unfolding send_acn_success
  send_acn_success-Stable = send_message-Stable success_status

  pub send_acn_error-Stable :
      (text : String) (codes : List StatusCode) → Stable P (send_acn_error codec pipe text codes)
  unfolding send_acn_error
  send_acn_error-Stable text codes = send_message-Stable (error_status text (first_code codes))

  ignore-send_acn_error-Stable :
      (text : String) (codes : List StatusCode)
      → Stable P (ignore (send_acn_error codec pipe text codes))
  ignore-send_acn_error-Stable text codes =
      dropped-Stable P (send_acn_error codec pipe text codes) (send_acn_error-Stable text codes)

  pub raise_after-Stable :
      {A : Type 0} (text : String) (codes : List StatusCode) (e : Err)
      → Stable P (ignore (send_acn_error codec pipe text codes) >>= λ _. raise {A = A} e)
  raise_after-Stable {A} text codes e =
      bind-Stable P (ignore (send_acn_error codec pipe text codes)) (λ _. raise {A = A} e)
        (ignore-send_acn_error-Stable text codes) (λ _. result-Stable P (err e))

  registration-Stable : (p : Option Performative) → Stable P (registration_payload codec pipe p)
  registration-Stable (some (register r)) = result-Stable P (ok r)
  registration-Stable _ =
      raise_after-Stable "Unexpected payload" (error_unexpected_payload ∷ [])
        (msg "Unexpected payload")

  decoded-Stable : (x : Except AcnMessage) → Stable P (decoded_registration codec pipe x)
  decoded-Stable (fail e) = raise_after-Stable (error_text e) (error_decode ∷ []) e
  decoded-Stable (done m) = registration-Stable m.performative

  pub read_agent_registration_message-Stable :
      Stable P pipe.read → Stable P (read_agent_registration_message codec pipe)
  unfolding read_agent_registration_message
  read_agent_registration_message-Stable reads =
      bind-Stable P pipe.read (λ buf. decoded_registration codec pipe (codec.unmarshal buf)) reads
        (λ buf. decoded-Stable (codec.unmarshal buf))

-- ===== src/Acn/Protocol/Readers.antt =====
-- The readers of acn/utils.go agree with one description of reading a message of a given kind.
use open_acn.Base.{String, ◌≡◌, ◌↔◌, Option, done, ok}
use open_acn.Wire.Word.{Bytes}
use open_acn.Wire.Pipe.{Pipe}
use open_acn.Acn.Message.{
  AgentRecord, StatusBody, EnvelopePerformative, AcnMessage, Performative, aea_envelope,
  lookup_request, register, status, message,
}
use open_acn.Acn.Codec.{Codec}
use open_acn.Acn.Protocol.Receive.{
  read_agent_registration_message, read_lookup_request, read_envelope_message, read_acn_status,
}
use open_acn.Acn.Protocol.Exchange.{read_lookup_request_iff, read_agent_registration_message_iff}
use open_acn.Acn.Protocol.Envelopes.{read_envelope_message_iff, read_acn_status_iff}

-- One read of the pipe gives the bytes of the message, and leads from one state to the other.
abbrev pub Reads : Codec AcnMessage → {S : Type 0} → Pipe S → Performative → S → S → Type 0
Reads codec pipe p s s' =
    (b : Bytes) × (pipe.read s ≡ (ok b, s')) × (codec.unmarshal b ≡ done (message p))

-- Each of the readers of a registration, a lookup request, an envelope message and a status returns
-- what it returns exactly when one read of the pipe gives the bytes of that message, and then changes
-- nothing else.
pub readers_iff :
    (codec : Codec AcnMessage) {S : Type 0} (pipe : Pipe S) (s s' : S) (r : Option AgentRecord)
    (address : String) (pl : EnvelopePerformative) (body : Option StatusBody)
    → ((read_agent_registration_message codec pipe s ≡ (ok r, s'))
        ↔ Reads codec pipe (register r) s s')
      × ((read_lookup_request codec pipe s ≡ (ok address, s'))
          ↔ Reads codec pipe (lookup_request address) s s')
      × ((read_envelope_message codec pipe s ≡ (ok pl, s'))
          ↔ Reads codec pipe (aea_envelope pl) s s')
      × ((read_acn_status codec pipe s ≡ (ok body, s')) ↔ Reads codec pipe (status body) s s')
readers_iff codec pipe s s' r address pl body = (
  read_agent_registration_message_iff codec pipe r s s',
  read_lookup_request_iff codec pipe address s s',
  read_envelope_message_iff codec pipe pl s s',
  read_acn_status_iff codec pipe body s s',
)

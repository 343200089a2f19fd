-- ===== src/Tests/Fixtures.antt =====
-- The values that the examples run on: connections, and stand-ins for the libraries.
use open_acn.Base.{
  ap, sym, ◌∙◌, refl, false, replicate, String, Bool, true, ◌≡◌, ◌&&◌, Option, none, some, List, [],
  ◌∷◌, Except, done, fail, msg, eof, arith, if◌then◌else◌, ◌=ˢ◌, ◌==◌, eq_iff, ok,
}
use open_acn.Wire.Word.{Bytes}
use open_acn.Wire.Conn.{Conn}
use open_acn.Acn.Message.{
  lookup_response, AgentRecord, StatusCode, success, Performative, lookup_request, register, status,
  aea_envelope, AcnMessage, message, Envelope,
}
use open_acn.Acn.Protocol.Send.{success_status}
use open_acn.Acn.Codec.{Codec}
use open_acn.Por.Crypto.{Crypto}
use open_acn.Por.Check.{accepted, is_valid_proof_of_representation}
use open_acn.Por.Ledger.{
  agent_address_from_public_key, cosmos_address_from_public_key_with_prefix,
  verify_ledger_signature, verify_fetchai_signature_btc, btc_pub_key_from_fetchai_public_key,
  parse_fetchai_signature, convert_str_encoded_signature_to_der,
}
use open_acn.Mailbox.State.{MailboxServer}
use open_acn.Mailbox.Handlers.{Request, Peer}

abbrev pub quiet : Conn
quiet = record { incoming = []; ended = eof; outgoing = []; broken = none }

abbrev pub record_of : String → AgentRecord
record_of a = record {
  service_id = "acn";
  ledger_id = "cosmos";
  address = a;
  public_key = "key";
  peer_public_key = "peer";
  signature = "signature";
  not_before = "";
  not_after = "";
}

abbrev pub is_agent : AgentRecord → Bool
is_agent r =
    r.service_id =ˢ "acn"
    && r.ledger_id =ˢ "cosmos"
    && r.address =ˢ "agent"
    && r.public_key =ˢ "key"
    && r.peer_public_key =ˢ "peer"
    && r.signature =ˢ "signature"
    && r.not_before =ˢ ""
    && r.not_after =ˢ ""

is_agent_lem : (r : AgentRecord) → is_agent r ≡ true → record_of "agent" ≡ r
is_agent_lem r h = ground (
  arith,
  eq_iff r.service_id "acn",
  eq_iff r.ledger_id "cosmos",
  eq_iff r.address "agent",
  eq_iff r.public_key "key",
  eq_iff r.peer_public_key "peer",
  eq_iff r.signature "signature",
  eq_iff r.not_before "",
  eq_iff r.not_after "",
)

pub agent-round_trip :
    (r : AgentRecord) (b : Bytes)
    → (if is_agent r then done (1 ∷ []) else fail (msg "record")) ≡ done b
    → done (record_of "agent") ≡ done r
agent-round_trip r b h = ground (
  arith,
  eq_iff r.service_id "acn",
  eq_iff r.ledger_id "cosmos",
  eq_iff r.address "agent",
  eq_iff r.public_key "key",
  eq_iff r.peer_public_key "peer",
  eq_iff r.signature "signature",
  eq_iff r.not_before "",
  eq_iff r.not_after "",
)

abbrev encode_status : StatusCode → List String → Except Bytes
encode_status success [] = done (4 ∷ [])
encode_status _ _ = fail (msg "status")

abbrev encode_envelope : Bytes → Option AgentRecord → Except Bytes
encode_envelope b none = done (5 ∷ b)
encode_envelope b (some r) = if is_agent r then done (7 ∷ b) else fail (msg "record")

abbrev pub encode : Option Performative → Except Bytes
encode (some (status none)) = done (1 ∷ [])
encode (some (register none)) = done (2 ∷ [])
encode (some (register (some r))) = if is_agent r then done (8 ∷ []) else fail (msg "record")
encode (some (lookup_request a)) = if a =ˢ "agent" then done (3 ∷ []) else fail (msg "address")
encode (some (status (some b))) = encode_status b.code b.msgs
encode (some (aea_envelope x)) = encode_envelope x.envelope x.agent_record
encode _ = fail (msg "message")

abbrev pub decode : Bytes → Except AcnMessage
decode [] = fail (msg "bytes")
decode (n ∷ b) =
    if n == 1
    then done (message (status none))
    else if n == 2
    then done (message (register none))
    else if n == 3
    then done (message (lookup_request "agent"))
    else if n == 4
    then done (message success_status)
    else if n == 6
    then done (message (lookup_response (some (record_of "agent"))))
    else if n == 8
    then done (message (register (some (record_of "agent"))))
    else if n == 7
    then done
        (message (aea_envelope (record { envelope = b; agent_record = some (record_of "agent") })))
    else done (message (aea_envelope (record { envelope = b; agent_record = none })))

decode-encode_status :
    (code : StatusCode) (msgs : List String) (b : Bytes)
    → encode_status code msgs ≡ done b
    → decode b ≡ done (message (status (some (record { code = code; msgs = msgs }))))
decode-encode_status code msgs b e = ground arith

with_record-ok :
    (c : Bool) (x b : Bytes)
    → (if c then done x else fail (msg "record")) ≡ done b
    → (c ≡ true) × (x ≡ b)
with_record-ok true x b e = (refl, cc)
with_record-ok false x b e = cc

decode-encode_envelope :
    (x : Bytes) (r : Option AgentRecord) (b : Bytes)
    → encode_envelope x r ≡ done b
    → decode b ≡ done (message (aea_envelope (record { envelope = x; agent_record = r })))
decode-encode_envelope x none b e = ground arith
decode-encode_envelope x (some r) b e =
    let (is, same) = with_record-ok (is_agent r) (7 ∷ x) b e in
    ap decode (sym same)
    ∙ ap (λ a. done (message (aea_envelope (record { envelope = x; agent_record = some a }))))
        (is_agent_lem r is)

pub decode-encode :
    (p : Option Performative) (b : Bytes)
    → encode p ≡ done b
    → decode b ≡ done (record { performative = p })
decode-encode none b e = cc
decode-encode (some (status none)) b e = ground arith
decode-encode (some (status (some s))) b e = decode-encode_status s.code s.msgs b e
decode-encode (some (register none)) b e = ground arith
decode-encode (some (register (some r))) b e =
    let (is, same) = with_record-ok (is_agent r) (8 ∷ []) b e in
    ap decode (sym same) ∙ ap (λ a. done (message (register (some a)))) (is_agent_lem r is)
decode-encode (some (lookup_request a)) b e = ground (arith, eq_iff a "agent")
decode-encode (some (aea_envelope x)) b e = decode-encode_envelope x.envelope x.agent_record b e
decode-encode (some (lookup_response x)) b e = cc

-- A protobuf runtime that knows eight kinds of message.
abbrev pub messages : Codec AcnMessage
messages = record {
  marshal = λ m. encode m.performative;
  unmarshal = decode;
  text = λ m. "message";
  round_trip = λ m b e. decode-encode m.performative b e;
}

-- An envelope to "agent" that holds no more than its message.
abbrev pub envelope_of : Bytes → Envelope
envelope_of b = record { to = "agent"; sender = ""; protocol_id = ""; message_bytes = b; uri = "" }

abbrev pub is_plain : Envelope → Bool
is_plain e = e.to =ˢ "agent" && e.sender =ˢ "" && e.protocol_id =ˢ "" && e.uri =ˢ ""

pub envelope-round_trip :
    (e : Envelope) (b : Bytes)
    → (if is_plain e then done e.message_bytes else fail (msg "envelope")) ≡ done b
    → done (envelope_of b) ≡ done e
envelope-round_trip e b h =
    ground
      (arith, eq_iff e.to "agent", eq_iff e.sender "", eq_iff e.protocol_id "", eq_iff e.uri "")

abbrev pub envelopes : Codec Envelope
envelopes = record {
  marshal = λ e. if is_plain e then done e.message_bytes else fail (msg "envelope");
  unmarshal = λ b. done (envelope_of b);
  text = λ e. e.to;
  round_trip = λ e b h. envelope-round_trip e b h;
}

pub record-round_trip :
    (r : AgentRecord) (b : Bytes) → fail (msg "record") ≡ done b → done (record_of "agent") ≡ done r
record-round_trip r b h = cc

-- A runtime that decodes every record as that of "agent", and encodes none.
abbrev pub records : Codec AgentRecord
records = record {
  marshal = λ r. fail (msg "record");
  unmarshal = λ b. done (record_of "agent");
  text = λ r. r.address;
  round_trip = λ r b h. record-round_trip r b h;
}

-- A mailbox in which session "s" has the address "agent" with two envelopes.
abbrev pub mailbox : MailboxServer
mailbox = record {
  sessions = ("s", "agent") ∷ [];
  agent_records = ("agent", record_of "agent") ∷ [];
  envelopes = ("agent", envelope_of (7 ∷ []) ∷ envelope_of (8 ∷ []) ∷ []) ∷ [];
  envelopes_limit = 1000;
  signature = [];
}

abbrev pub request : String → String → Request
request method session_id = record {
  method = method;
  header = ("Session-Id", session_id ∷ []) ∷ [];
  body = done (1 ∷ []);
}

-- A peer that accepts every record and drops every envelope.
abbrev pub peer : Peer (Unit {0})
peer = record {
  check_por = λ r. ok accepted;
  is_address_announcement_enabled = true;
  register_agent_address = λ a s. (ok tt, s);
  route_envelope = λ e s. (ok tt, s);
}

-- Libraries whose keys, signatures and hashes are all the same.
abbrev pub crypto : Crypto
crypto = record {
  to_bytes = λ s. [];
  of_bytes = λ b. "agent";
  hex_decode = λ b. done b;
  hex_encode = λ b. b;
  base64_decode = λ s. done (replicate 64 0);
  PubKey = Unit;
  Signature = Unit;
  parse_pub_key = λ b. done tt;
  parse_der_signature = λ b. done tt;
  verify = λ s b k. true;
  set_bytes = λ b. 0;
  asn1_marshal = λ r s. done [];
  id_from_public_key = λ k. done "id";
  sha256 = λ b. b;
  ripemd160 = λ b. b;
  keccak256 = λ b. b;
  convert_bits = λ b. done b;
  bech32_encode = λ s b. done "agent";
  EthKey = Unit;
  hexutil_decode = λ s. done [];
  format_int = λ n. [];
  sig_to_pub = λ b s. done tt;
  pubkey_to_address = λ k. "agent";
}

-- The record of the agent is a valid proof for the peer with the key "peer".
pub agent_accepted :
    is_valid_proof_of_representation crypto (record_of "agent") "agent" "peer" ≡ ok accepted
unfolding is_valid_proof_of_representation agent_address_from_public_key
    cosmos_address_from_public_key_with_prefix verify_ledger_signature verify_fetchai_signature_btc
    btc_pub_key_from_fetchai_public_key parse_fetchai_signature convert_str_encoded_signature_to_der
agent_accepted = refl

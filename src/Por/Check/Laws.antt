-- ===== src/Por/Check/Laws.antt =====
-- When a proof of representation is accepted, and how the status and the error go together.
use open_acn.Base.{
  List, String, Bool, true, false, not, none, Err, Result, ok, err, panic, ◌=ˢ◌, ◌≡◌, ◌↔◌, refl,
  arith, eq_iff, ap,
}
use open_acn.Acn.Message.{
  error_wrong_public_key, error_unsupported_ledger, error_wrong_agent_address, StatusCode,
  AgentRecord, is_success,
}
use open_acn.Por.Crypto.{Crypto}
use open_acn.Por.Ledger.{agent_address_from_public_key, verify_ledger_signature}
use open_acn.Base.{if◌then◌else◌, eq_refl, if_both}
use open_acn.Por.Check.{
  is_verified, is_verified, refused, check_signature, supported_ledgers, is_among, Verdict,
  accepted, is_valid_proof_of_representation, signature_verdict, address_verdict,
}

module _ (c : Crypto) (r : AgentRecord) (agent_address peer_key : String) where
  -- What a valid proof shows.
  pub record IsProof : Type 0 where
    pub same_address : r.address ≡ agent_address
    pub supported : is_among r.ledger_id supported_ledgers ≡ true
    pub same_key : r.peer_public_key ≡ peer_key
    pub derived : agent_address_from_public_key c r.ledger_id r.public_key ≡ ok r.address
    pub signed :
        verify_ledger_signature c r.ledger_id
          (c.to_bytes r.peer_public_key)
          r.signature
          r.public_key
        ≡ ok true

  signature_accepted : (x : Result Bool) → signature_verdict c r x ≡ ok accepted → x ≡ ok true
  signature_accepted (ok true) e = refl
  signature_accepted (ok false) e = ground arith
  signature_accepted (err x) e = ground arith
  signature_accepted panic e = ground arith

  address_accepted :
      (x : Result String)
      → address_verdict c r x ≡ ok accepted
      → (x ≡ ok r.address) × (check_signature c r ≡ ok accepted)
  address_accepted (ok a) e = ground (arith, eq_iff a r.address)
  address_accepted (err x) e = ground arith
  address_accepted panic e = ground arith

  reaches_address :
      is_valid_proof_of_representation c r agent_address peer_key ≡ ok accepted
      → address_verdict c r (agent_address_from_public_key c r.ledger_id r.public_key) ≡ ok accepted
  unfolding is_valid_proof_of_representation
  reaches_address e = ground arith

  IsProof-of_accepted :
      is_valid_proof_of_representation c r agent_address peer_key ≡ ok accepted → IsProof
  unfolding is_valid_proof_of_representation
  IsProof-of_accepted e =
      let (derives, checked) = address_accepted _ (reaches_address e) in
      record {
        same_address = ground (arith, eq_iff r.address agent_address);
        supported = ground arith;
        same_key = ground (arith, eq_iff r.peer_public_key peer_key);
        derived = derives;
        signed = signature_accepted _ checked;
      }

  accepted-of_IsProof :
      IsProof → is_valid_proof_of_representation c r agent_address peer_key ≡ ok accepted
  unfolding is_valid_proof_of_representation
  accepted-of_IsProof p = rw (
    (eq_iff r.address agent_address).1 p.same_address,
    p.supported,
    (eq_iff r.peer_public_key peer_key).1 p.same_key,
    p.derived,
    eq_refl r.address,
    p.signed,
  )

  -- The check returns SUCCESS without an error exactly for the records that have the expected
  -- address, a supported ledger and the expected peer key, even where both are empty, whose address
  -- is that of the public key, and whose signature of the peer key verifies.
  pub is_valid_proof_of_representation_iff :
      (is_valid_proof_of_representation c r agent_address peer_key ≡ ok accepted) ↔ IsProof
  is_valid_proof_of_representation_iff = (IsProof-of_accepted, accepted-of_IsProof)

  abbrev was_verified : Result Verdict → Bool
  was_verified (ok v) = is_verified v
  was_verified (err e) = false
  was_verified panic = false

  accepted_past :
      (b : Bool) (code : StatusCode) (msgs : List String) (e : Err) (x : Result Verdict)
      (v : Verdict)
      → is_verified v ≡ true
      → (if b then refused code msgs e else x) ≡ ok v
      → (b ≡ false) × (x ≡ ok v)
  accepted_past true code msgs e x v h p = ground (arith, ap was_verified p, h)
  accepted_past false code msgs e x v h p = (refl, p)

  -- A record that is accepted names the expected peer key.
  pub peer_key_of_verified :
      (v : Verdict)
      → is_valid_proof_of_representation c r agent_address peer_key ≡ ok v
      → is_verified v ≡ true
      → r.peer_public_key ≡ peer_key
  unfolding is_valid_proof_of_representation
  peer_key_of_verified v e h =
      let (_, e1) = accepted_past (not (r.address =ˢ agent_address)) _ _ _ _ v h e in
      let (_, e2) = accepted_past (not (is_among r.ledger_id supported_ledgers)) _ _ _ _ v h e1 in
      let (same, _) = accepted_past (not (r.peer_public_key =ˢ peer_key)) _ _ _ _ v h e2 in
      (eq_iff r.peer_public_key peer_key).0 (ground (arith, same))

  abbrev pub Agrees : Result Verdict → Type 0
  Agrees (ok v) = (is_success v.0.code ≡ true) ↔ (v.1 ≡ none)
  Agrees (err e) = ⊥
  Agrees panic = Unit {0}

  signature-Agrees : (x : Result Bool) → Agrees (signature_verdict c r x)
  signature-Agrees (ok true) = (λ _. refl, λ _. refl)
  signature-Agrees (ok false) = (λ e. cc, λ e. cc)
  signature-Agrees (err x) = (λ e. cc, λ e. cc)
  signature-Agrees panic = tt

  address-Agrees : (x : Result String) → Agrees (address_verdict c r x)
  address-Agrees (ok a) =
      if_both Agrees (a =ˢ r.address) _ _ (signature-Agrees _) (λ e. cc, λ e. cc)
  address-Agrees (err x) = (λ e. cc, λ e. cc)
  address-Agrees panic = tt

  refusing-Agrees :
      (b : Bool) (code : StatusCode) (msgs : List String) (e : Err) (x : Result Verdict)
      → is_success code ≡ false
      → Agrees x
      → Agrees (if b then refused code msgs e else x)
  refusing-Agrees true code msgs e x bad h = (λ p. cc, λ p. cc)
  refusing-Agrees false code msgs e x bad h = h

  -- Where the check does not panic, it returns a status and an error, of which the status is
  -- SUCCESS exactly if the error is nil.
  verdict-Agrees : Agrees (is_valid_proof_of_representation c r agent_address peer_key)
  unfolding is_valid_proof_of_representation
  verdict-Agrees =
      refusing-Agrees (not (r.address =ˢ agent_address)) error_wrong_agent_address _ _ _ refl (
        refusing-Agrees (not (is_among r.ledger_id supported_ledgers)) error_unsupported_ledger _ _
          _ refl
          (refusing-Agrees (not (r.peer_public_key =ˢ peer_key)) error_wrong_public_key _ _ _ refl
            (address-Agrees _)))

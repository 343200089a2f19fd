-- ===== src/Por/Check/Panics.antt =====
-- Which records make the check panic. Registration and envelope handlers run it on records that
-- any peer can send.
use open_acn.Base.{
  text_ne, String, Bool, true, false, not, Err, Result, ok, err, panic, ◌=ˢ◌, ◌≡◌, ◌≢◌, refl,
  eq_iff, ◌<◌, length, ltb-true, Except, done, fail, if◌then◌else◌,
}
use open_acn.Base.Pure.{◌>>=◌, from_except}
use open_acn.Wire.Word.{Bytes}
use open_acn.Acn.Message.{AgentRecord}
use open_acn.Por.Crypto.{Crypto}
use open_acn.Por.Ledger.{
  agent_address_from_public_key, verify_ledger_signature, ethereum_address_from_public_key,
  cosmos_address_from_public_key_with_prefix, verify_fetchai_signature_btc,
  btc_pub_key_from_fetchai_public_key, parse_fetchai_signature,
  convert_str_encoded_signature_to_der,
}
use open_acn.Por.Check.{
  supported_ledgers, is_among, is_valid_proof_of_representation, signature_verdict, address_verdict,
  check_signature,
}

record NoPanic {ℓ} {A : Type ℓ} (m : Result A) : Type ℓ where
  returns : m ≢ panic

NoPanic-ok {ℓ} : {A : Type ℓ} (a : A) → NoPanic (ok a)
NoPanic-ok a = record { returns = λ e. cc }

NoPanic-err {ℓ} : {A : Type ℓ} (e : Err) → NoPanic {A = A} (err e)
NoPanic-err e = record { returns = λ p. cc }

NoPanic-bind {ℓ} :
    {A B : Type ℓ} (m : Result A) (f : A → Result B)
    → NoPanic m
    → ((a : A) → NoPanic (f a))
    → NoPanic (m >>= f)
NoPanic-bind (ok a) f h k = k a
NoPanic-bind (err e) f h k = NoPanic-err e
NoPanic-bind panic f h k = absurd (h.returns refl)

NoPanic-from_except {ℓ} : {A : Type ℓ} (x : Except A) → NoPanic (from_except x)
NoPanic-from_except (done a) = NoPanic-ok a
NoPanic-from_except (fail e) = NoPanic-err e

NoPanic-if {ℓ} :
    {A : Type ℓ} (b : Bool) (m n : Result A) → NoPanic m → NoPanic n → NoPanic (if b then m else n)
NoPanic-if true m n hm hn = hm
NoPanic-if false m n hm hn = hn

ruleset no_panic_rules = (NoPanic-ok, NoPanic-err, NoPanic-bind, NoPanic-from_except, NoPanic-if)

module _ (c : Crypto) where
  cosmos_address-NoPanic :
      (prefix key : String) → NoPanic (cosmos_address_from_public_key_with_prefix c prefix key)
  unfolding cosmos_address_from_public_key_with_prefix
  cosmos_address-NoPanic prefix key = search no_panic_rules

  key-NoPanic : (key : String) → NoPanic (btc_pub_key_from_fetchai_public_key c key)
  unfolding btc_pub_key_from_fetchai_public_key
  key-NoPanic key = search no_panic_rules

  der-NoPanic : (s : Bytes) → NoPanic (convert_str_encoded_signature_to_der c s)
  unfolding convert_str_encoded_signature_to_der
  der-NoPanic s = search no_panic_rules

  signature-NoPanic : (s : String) → NoPanic (parse_fetchai_signature c s)
  signature-NoPanic s = unfold parse_fetchai_signature in search (no_panic_rules, der-NoPanic)

  verify-NoPanic :
      (text : Bytes) (signature key : String)
      → NoPanic (verify_fetchai_signature_btc c text signature key)
  unfolding verify_fetchai_signature_btc
  verify-NoPanic text signature key = search (no_panic_rules, key-NoPanic, signature-NoPanic)

  module _ (r : AgentRecord) (agent_address peer_key : String) where
    verify_ledger-NoPanic :
        r.ledger_id ≢ "ethereum"
        → (text : Bytes)
        → NoPanic (verify_ledger_signature c r.ledger_id text r.signature r.public_key)
    unfolding verify_ledger_signature
    verify_ledger-NoPanic other text =
        rw (text_ne r.ledger_id "ethereum" other) (search (no_panic_rules, verify-NoPanic))

    address-NoPanic :
        r.ledger_id ≢ "ethereum"
        → NoPanic (agent_address_from_public_key c r.ledger_id r.public_key)
    unfolding agent_address_from_public_key
    address-NoPanic other =
        rw (text_ne r.ledger_id "ethereum" other) (search (no_panic_rules, cosmos_address-NoPanic))

    signature_verdict-NoPanic : (x : Result Bool) → NoPanic x → NoPanic (signature_verdict c r x)
    signature_verdict-NoPanic (ok true) h = NoPanic-ok _
    signature_verdict-NoPanic (ok false) h = NoPanic-ok _
    signature_verdict-NoPanic (err e) h = NoPanic-ok _
    signature_verdict-NoPanic panic h = absurd (h.returns refl)

    address_verdict-NoPanic :
        (x : Result String)
        → NoPanic x
        → NoPanic (check_signature c r)
        → NoPanic (address_verdict c r x)
    address_verdict-NoPanic (ok a) h k = NoPanic-if (a =ˢ r.address) _ _ k (NoPanic-ok _)
    address_verdict-NoPanic (err e) h k = NoPanic-ok _
    address_verdict-NoPanic panic h k = absurd (h.returns refl)

    is_valid-NoPanic :
        r.ledger_id ≢ "ethereum"
        → NoPanic (is_valid_proof_of_representation c r agent_address peer_key)
    unfolding is_valid_proof_of_representation
    is_valid-NoPanic other = NoPanic-if (not (r.address =ˢ agent_address)) _ _ (NoPanic-ok _) (
        NoPanic-if (not (is_among r.ledger_id supported_ledgers)) _ _ (NoPanic-ok _) (
          NoPanic-if (not (r.peer_public_key =ˢ peer_key)) _ _ (NoPanic-ok _) (
            address_verdict-NoPanic _ (address-NoPanic other)
              (signature_verdict-NoPanic _ (verify_ledger-NoPanic other _)))))

    -- Unless it names the Ethereum ledger, no record makes the check panic.
    pub check_total :
        r.ledger_id ≢ "ethereum"
        → is_valid_proof_of_representation c r agent_address peer_key ≢ panic
    check_total other = (is_valid-NoPanic other).returns

    -- A record of the Ethereum ledger with a public key of fewer than two bytes makes the check
    -- panic, once its address and peer key are those that the caller expects.
    pub short_key_panic :
        r.ledger_id ≡ "ethereum"
        → r.address ≡ agent_address
        → r.peer_public_key ≡ peer_key
        → length (c.to_bytes r.public_key) < 2
        → is_valid_proof_of_representation c r agent_address peer_key ≡ panic
    unfolding is_valid_proof_of_representation agent_address_from_public_key
        ethereum_address_from_public_key
    short_key_panic ledger address key short = rw (
      (eq_iff r.address agent_address).1 address,
      ledger,
      (eq_iff r.peer_public_key peer_key).1 key,
      ltb-true (length (c.to_bytes r.public_key)) 2 short,
    )

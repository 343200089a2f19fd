-- ===== src/Por/Ledger.antt =====
-- The ledgers of utils/utils.go: the address of a public key, and the check of a signature.
use open_acn.Base.{
  String, ℕ, zero, suc, ◌+◌, ◌-◌, ◌*◌, ◌/◌, ◌%◌, Bool, true, ◌&&◌, ◌||◌, not, [], ◌∷◌, ◌++◌, msg,
  Result, ok, err, panic, if◌then◌else◌, ltb, ◌==◌, ◌=ˢ◌, length, take, drop, replicate, leb,
}
use open_acn.Base.Pure.{◌>>=◌, from_except}
use open_acn.Wire.Word.{Bytes}
use open_acn.Acn.Message.{◌+ˢ◌}
use open_acn.Por.Crypto.{Crypto}

-- `secp256k1SignatureComponentSize`
abbrev pub component_size : ℕ
component_size = 32

-- `b[i]`, which panics out of range.
abbrev pub index : Bytes → ℕ → Result ℕ
index [] i = panic
index (b ∷ bs) zero = ok b
index (b ∷ bs) (suc i) = index bs i

-- `s[n:]`, which panics when the slice is shorter.
abbrev pub slice_from : ℕ → Bytes → Result Bytes
slice_from n bs = if ltb (length bs) n then panic else ok (drop n bs)

-- `b[i] = v`
abbrev pub set : Bytes → ℕ → ℕ → Bytes
set [] i v = []
set (b ∷ bs) zero v = v ∷ bs
set (b ∷ bs) (suc i) v = b ∷ set bs i v

-- `padToLeft`
unfoldable pub pad_to_left : Bytes → ℕ → Bytes
pad_to_left b size = if leb size (length b) then b else replicate (size - length b) 0 ++ b

module _ (c : Crypto) where
  open c use {
    to_bytes, of_bytes, hex_decode, hex_encode, base64_decode, PubKey, Signature, parse_pub_key,
    parse_der_signature, verify, set_bytes, asn1_marshal, sha256, ripemd160, keccak256,
    convert_bits, bech32_encode, format_int, hexutil_decode, sig_to_pub, pubkey_to_address,
  }

  unfoldable pub btc_pub_key_from_fetchai_public_key : String → Result PubKey
  btc_pub_key_from_fetchai_public_key public_key = do
    pbk_bytes ← from_except (hex_decode (to_bytes public_key))
    from_except (parse_pub_key pbk_bytes)

  unfoldable pub convert_str_encoded_signature_to_der : Bytes → Result Bytes
  convert_str_encoded_signature_to_der signature =
      if not (length signature == 2 * component_size)
      then err (msg "invalid secp256k1 signature length")
      else from_except (
          asn1_marshal (set_bytes (take component_size signature))
            (set_bytes (drop component_size signature)))

  unfoldable pub parse_fetchai_signature : String → Result Signature
  parse_fetchai_signature signature = do
    sig_bytes ← from_except (base64_decode signature)
    sig_der ← convert_str_encoded_signature_to_der sig_bytes
    from_except (parse_der_signature sig_der)

  unfoldable pub verify_fetchai_signature_btc : Bytes → String → String → Result Bool
  verify_fetchai_signature_btc text signature pubkey = do
    verify_key ← btc_pub_key_from_fetchai_public_key pubkey
    signature_btc ← parse_fetchai_signature signature
    ok (verify signature_btc (sha256 text) verify_key)

  unfoldable pub cosmos_address_from_public_key_with_prefix : String → String → Result String
  cosmos_address_from_public_key_with_prefix prefix public_key = do
    hex_bytes ← from_except (hex_decode (to_bytes public_key))
    five_bits_char ← from_except (convert_bits (ripemd160 (sha256 hex_bytes)))
    from_except (bech32_encode prefix five_bits_char)

  -- One digit of the loop of `encodeChecksumEIP55`: a letter whose digit of the hash is above 7 is
  -- put in upper case.
  abbrev pub checksum_digit : ℕ → ℕ → ℕ → ℕ
  checksum_digit i digit hash_byte =
      let nibble = if i % 2 == 0 then hash_byte / 16 else hash_byte % 16 in
      if ltb b'9' digit && ltb 7 nibble then digit - 32 else digit

  -- The loop from index `i` on, over the digits that are left.
  unfoldable pub checksum_digits : Bytes → ℕ → Bytes → Result Bytes
  checksum_digits hash i [] = ok []
  checksum_digits hash i (digit ∷ rest) = do
    hash_byte ← index hash (i / 2)
    digits ← checksum_digits hash (i + 1) rest
    ok (checksum_digit i digit hash_byte ∷ digits)

  unfoldable pub encode_checksum_eip55 : Bytes → Result String
  unfolding checksum_digits
  encode_checksum_eip55 address = do
    digits ← checksum_digits (keccak256 (hex_encode address)) 0 (hex_encode address)
    ok ("0x" +ˢ of_bytes digits)

  unfoldable pub ethereum_address_from_public_key : String → Result String
  unfolding encode_checksum_eip55
  ethereum_address_from_public_key public_key = do
    digits ← slice_from 2 (to_bytes public_key)
    hex_bytes ← from_except (hex_decode digits)
    address ← slice_from 12 (keccak256 hex_bytes)
    encode_checksum_eip55 address

  unfoldable pub sign_hash_eth : Bytes → Bytes
  sign_hash_eth text =
      keccak256
        (25 ∷ (to_bytes "Ethereum Signed Message:" ++ (10 ∷ (format_int (length text) ++ text))))

  unfoldable pub recover_address_from_ethereum_signature : Bytes → String → Result String
  unfolding sign_hash_eth
  recover_address_from_ethereum_signature text signature = do
    sig_bytes ← from_except (hexutil_decode signature)
    v ← index sig_bytes 64
    if not (v == 27) && not (v == 28)
        then err (msg "invalid Ethereum signature (V is not 27 or 28)")
        else do
          key ← from_except (sig_to_pub (sign_hash_eth text) (set sig_bytes 64 (v - 27)))
          ok (pubkey_to_address key)

  unfoldable pub verify_ethereum_signature_eth : Bytes → String → String → Result Bool
  verify_ethereum_signature_eth text signature pubkey = do
    expected_address ← ethereum_address_from_public_key pubkey
    recovered_address ← recover_address_from_ethereum_signature text signature
    if not (recovered_address =ˢ expected_address)
        then err (msg "recovered and expected addresses don't match")
        else ok true

  -- `AgentAddressFromPublicKey`, with the table `addressFromPublicKeyTable`.
  unfoldable pub agent_address_from_public_key : String → String → Result String
  agent_address_from_public_key ledger_id public_key =
      if ledger_id =ˢ "fetchai"
      then cosmos_address_from_public_key_with_prefix "fetch" public_key
      else if ledger_id =ˢ "cosmos"
      then cosmos_address_from_public_key_with_prefix "cosmos" public_key
      else if ledger_id =ˢ "ethereum"
      then ethereum_address_from_public_key public_key
      else err (msg ("Unsupported ledger " +ˢ ledger_id))

  -- `VerifyLedgerSignature`, with the table `verifyLedgerSignatureTable`.
  unfoldable pub verify_ledger_signature : String → Bytes → String → String → Result Bool
  verify_ledger_signature ledger_id text signature pub_key =
      if (ledger_id =ˢ "fetchai") || (ledger_id =ˢ "cosmos")
      then verify_fetchai_signature_btc text signature pub_key
      else if ledger_id =ˢ "ethereum"
      then verify_ethereum_signature_eth text signature pub_key
      else err (msg "unsupported ledger")

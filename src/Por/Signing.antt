-- ===== src/Por/Signing.antt =====
-- Keys and signatures of utils/utils.go beside the ledgers: `SignFetchAI`,
-- `VerifyFetchAISignatureLibp2p`, `ConvertDEREncodedSignatureToStr` and the key conversions.
pub mod RoundTrip
use open_acn.Base.{
  String, ℕ, ◌*◌, ◌^◌, ◌<◌, ◌≡◌, Bool, true, Except, done, fail, Result, length, take, drop,
  replicate, ◌++◌, [], ◌∷◌, ok, msg, err,
}
use open_acn.Base.Pure.{◌>>=◌, from_except}
use open_acn.Wire.Word.{Bytes}
use open_acn.Por.Crypto.{Crypto}
use open_acn.Por.Ledger.{component_size, pad_to_left, convert_str_encoded_signature_to_der}
use open_acn.Por.Digits.{set_bytes, int_bytes}

-- The libraries behind these functions.
pub record Keys (c : Crypto) : Type 1 where
  pub base64_encode : Bytes → String
  -- what `hex.DecodeString` gives beside its error: the bytes before the first bad digit
  pub hex_part : Bytes → Bytes
  -- `asn1.Unmarshal` into two integers; of a negative one, the functions use the absolute value.
  pub asn1_unmarshal : Bytes → Except (ℕ × ℕ)
  -- `big.Int.Bytes`
  pub big_bytes : ℕ → Bytes
  -- btcec
  pub BtcKey : Type 0
  pub priv_key_from_bytes : Bytes → BtcKey × c.PubKey
  pub serialize_compressed : c.PubKey → Bytes
  -- go-libp2p/core/crypto
  pub PrivKey : Type 0
  pub NodeKey : Type 0
  pub key_pair_from_std_key : BtcKey → Except (PrivKey × NodeKey)
  pub unmarshal_secp256k1_public_key : Bytes → Except NodeKey
  pub raw : NodeKey → Except Bytes
  pub sign : PrivKey → Bytes → Except Bytes
  pub verify_with : NodeKey → Bytes → Bytes → Except Bool

-- What the libraries document, on the bytes that they give to one another.
pub record KeysLaws (c : Crypto) (k : Keys c) : Type 0 where
  pub set_bytes_lem : (b : Bytes) → c.set_bytes b ≡ set_bytes b
  pub big_bytes_lem : (n : ℕ) → k.big_bytes n ≡ int_bytes n
  pub asn1_lem :
      (r s : ℕ) (d : Bytes) → c.asn1_marshal r s ≡ done d → k.asn1_unmarshal d ≡ done (r, s)
  pub base64_lem : (b : Bytes) → c.base64_decode (k.base64_encode b) ≡ done b
  pub hex_lem : (b : Bytes) → c.hex_decode (c.to_bytes (c.of_bytes (c.hex_encode b))) ≡ done b
  -- A signature is the DER form of two numbers of 32 bytes.
  pub sign_lem :
      (key : k.PrivKey) (text d : Bytes)
      → k.sign key text ≡ done d
      → (r s : ℕ) × (c.asn1_marshal r s ≡ done d) × (r < 256 ^ 32) × (s < 256 ^ 32)
  -- The two libraries agree on the public key of a private key, and it verifies its signatures.
  pub public_lem :
      (b : Bytes) (key : k.PrivKey) (public : k.NodeKey)
      → k.key_pair_from_std_key (k.priv_key_from_bytes b).0 ≡ done (key, public)
      → k.unmarshal_secp256k1_public_key (k.serialize_compressed (k.priv_key_from_bytes b).1)
        ≡ done public
  pub verify_lem :
      (b : Bytes) (key : k.PrivKey) (public : k.NodeKey) (text d : Bytes)
      → k.key_pair_from_std_key (k.priv_key_from_bytes b).0 ≡ done (key, public)
      → k.sign key text ≡ done d
      → k.verify_with public text d ≡ done true

-- `copy(dst, src)`
abbrev pub copy_onto : Bytes → Bytes → Bytes
copy_onto dst src = take (length dst) src ++ drop (length src) dst

abbrev pub both_components : Bytes → Bytes → Bytes
both_components r s =
    let out = copy_onto (replicate (2 * component_size) 0) r in
    take component_size out ++ copy_onto (drop component_size out) s

module _ (c : Crypto) (k : Keys c) where
  -- The bytes of a hex text; the error of the decoding is dropped.
  abbrev pub hex_bytes : Bytes → Except Bytes → Bytes
  hex_bytes text (done b) = b
  hex_bytes text (fail e) = k.hex_part text

  unfoldable pub pub_key_from_fetchai_public_key : String → Result k.NodeKey
  pub_key_from_fetchai_public_key public_key =
      let text = c.to_bytes public_key in
      from_except (k.unmarshal_secp256k1_public_key (hex_bytes text (c.hex_decode text)))

  unfoldable pub fetchai_public_key_from_pub_key : k.NodeKey → Result String
  fetchai_public_key_from_pub_key public_key = do
    raw ← from_except (k.raw public_key)
    ok (c.of_bytes (c.hex_encode raw))

  unfoldable pub key_pair_from_fetchai_key : String → Result (k.PrivKey × k.NodeKey)
  key_pair_from_fetchai_key key = do
    pk_bytes ← from_except (c.hex_decode (c.to_bytes key))
    from_except (k.key_pair_from_std_key (k.priv_key_from_bytes pk_bytes).0)

  unfoldable pub fetchai_public_key_from_fetchai_private_key : String → Result String
  fetchai_public_key_from_fetchai_private_key private_key = do
    pk_bytes ← from_except (c.hex_decode (c.to_bytes private_key))
    ok (c.of_bytes (c.hex_encode (k.serialize_compressed (k.priv_key_from_bytes pk_bytes).1)))

  unfoldable pub convert_der_encoded_signature_to_str : Bytes → Result Bytes
  convert_der_encoded_signature_to_str signature = do
    parsed ← from_except (k.asn1_unmarshal signature)
    ok (
        both_components (pad_to_left (k.big_bytes parsed.0) component_size)
          (pad_to_left (k.big_bytes parsed.1) component_size))

  unfoldable pub sign_fetchai : Bytes → String → Result String
  sign_fetchai text priv_key = do
    pair ← key_pair_from_fetchai_key priv_key
    signature ← from_except (k.sign pair.0 text)
    str_signature ← convert_der_encoded_signature_to_str signature
    ok (k.base64_encode str_signature)

  unfoldable pub verify_fetchai_signature_libp2p : Bytes → String → String → Result Bool
  verify_fetchai_signature_libp2p text signature pubkey = do
    verify_key ← pub_key_from_fetchai_public_key pubkey
    sig_bytes ← from_except (c.base64_decode signature)
    sig_der ← convert_str_encoded_signature_to_der c sig_bytes
    from_except (k.verify_with verify_key text sig_der)

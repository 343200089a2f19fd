-- ===== src/Por/Crypto.antt =====
-- The libraries that utils/utils.go calls: encodings, hashes, and elliptic curve signatures.
use open_acn.Base.{String, Bool, ℕ, Except}
use open_acn.Wire.Word.{Bytes}

-- No law is assumed of them. The writers of the hashes never fail, as package hash documents.
pub record Crypto : Type 1 where
  -- Go's conversions between a string and its bytes
  pub to_bytes : String → Bytes
  pub of_bytes : Bytes → String
  pub hex_decode : Bytes → Except Bytes
  pub hex_encode : Bytes → Bytes
  pub base64_decode : String → Except Bytes
  -- btcec
  pub PubKey : Type 0
  pub Signature : Type 0
  pub parse_pub_key : Bytes → Except PubKey
  pub parse_der_signature : Bytes → Except Signature
  pub verify : Signature → Bytes → PubKey → Bool
  -- `big.Int.SetBytes`, and `asn1.Marshal` of two integers
  pub set_bytes : Bytes → ℕ
  pub asn1_marshal : ℕ → ℕ → Except Bytes
  -- `peer.IDFromPublicKey`; a `peer.ID` is a string.
  pub id_from_public_key : PubKey → Except String
  pub sha256 : Bytes → Bytes
  pub ripemd160 : Bytes → Bytes
  pub keccak256 : Bytes → Bytes
  pub convert_bits : Bytes → Except Bytes
  pub bech32_encode : String → Bytes → Except String
  -- go-ethereum
  pub EthKey : Type 0
  pub hexutil_decode : String → Except Bytes
  pub format_int : ℕ → Bytes
  pub sig_to_pub : Bytes → Bytes → Except EthKey
  pub pubkey_to_address : EthKey → String

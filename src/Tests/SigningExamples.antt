-- ===== src/Tests/SigningExamples.antt =====
-- A signature by stand-in libraries that write each byte of a text as that many letters.
use Prim.Native.Char.{code}
use open_acn.Base.{
  false, String, ℕ, zero, suc, ◌+◌, ◌≡◌, refl, sym, ap, ◌∙◌, true, done, ok, [], ◌∷◌, ◌++◌,
  replicate, arith, ◌==◌, fail, msg, Except,
}
use open_acn.Wire.Word.{Bytes}
use open_acn.Por.Crypto.{Crypto}
use open_acn.Por.Ledger.{pad_to_left}
use open_acn.Por.Digits.{set_bytes, int_bytes}
use open_acn.Por.Signing.{
  Keys, KeysLaws, convert_der_encoded_signature_to_str, sign_fetchai,
  verify_fetchai_signature_libp2p, fetchai_public_key_from_fetchai_private_key,
  key_pair_from_fetchai_key,
}
use open_acn.Por.Signing.RoundTrip.{verify_fetchai_signature_libp2p-sign_fetchai}
use open_acn.Tests.Fixtures.{crypto}

-- A byte is that many letters "a" and a "b".
letters : ℕ → String → String
letters zero s = String.◌∷◌ "b" s
letters (suc n) s = String.◌∷◌ "a" (letters n s)

text_of : Bytes → String
text_of [] = String.[]
text_of (b ∷ bs) = letters b (text_of bs)

bytes_from : ℕ → String → Bytes
bytes_from n String.[] = []
bytes_from n (String.◌∷◌ c s) = elim (code c == b'a') [
  | true ↦ bytes_from (n + 1) s
  | false ↦ n ∷ bytes_from 0 s
]

bytes_from-letters : (m n : ℕ) (s : String) → bytes_from m (letters n s) ≡ (m + n) ∷ bytes_from 0 s
unfolding bytes_from letters
bytes_from-letters m zero s = ap (λ j. j ∷ bytes_from 0 s) (add_zero m)
  where
    add_zero : (a : ℕ) → a ≡ a + 0
    add_zero a = omega arith
bytes_from-letters m (suc n) s =
    bytes_from-letters (m + 1) n s ∙ ap (λ j. j ∷ bytes_from 0 s) (shift m n)
  where
    shift : (a b : ℕ) → a + 1 + b ≡ a + suc b
    shift a b = omega arith

bytes_from-text_of : (b : Bytes) → bytes_from 0 (text_of b) ≡ b
unfolding bytes_from text_of
bytes_from-text_of [] = refl
bytes_from-text_of (n ∷ b) =
    bytes_from-letters 0 n (text_of b)
    ∙ ap (λ j. j ∷ bytes_from 0 (text_of b)) (zero_add n)
    ∙ ap (λ bs. n ∷ bs) (bytes_from-text_of b)
  where
    zero_add : (a : ℕ) → 0 + a ≡ a
    zero_add a = omega arith

abbrev signing_crypto : Crypto
signing_crypto = record crypto {
  to_bytes = bytes_from 0;
  of_bytes = text_of;
  hex_decode = λ b. done b;
  hex_encode = λ b. b;
  base64_decode = λ s. done (bytes_from 0 s);
  set_bytes = set_bytes;
  asn1_marshal = λ r s. done (r ∷ s ∷ []);
}

abbrev two_numbers : Bytes → Except (ℕ × ℕ)
two_numbers (r ∷ s ∷ _) = done (r, s)
two_numbers _ = fail (msg "asn1")

-- Every text is signed by the numbers 1 and 2.
abbrev keys : Keys signing_crypto
keys = record {
  base64_encode = text_of;
  hex_part = λ b. [];
  asn1_unmarshal = two_numbers;
  big_bytes = int_bytes;
  BtcKey = Unit;
  priv_key_from_bytes = λ b. (tt, tt);
  serialize_compressed = λ k. 5 ∷ [];
  PrivKey = Unit;
  NodeKey = Unit;
  key_pair_from_std_key = λ k. done (tt, tt);
  unmarshal_secp256k1_public_key = λ b. done tt;
  raw = λ k. done (5 ∷ []);
  sign = λ k t. done (1 ∷ 2 ∷ []);
  verify_with = λ k t s. done true;
}

marshal_lem : (r s : ℕ) (d : Bytes) → done (r ∷ s ∷ []) ≡ done d → two_numbers d ≡ done (r, s)
marshal_lem r s d e = ap two_numbers (sym (same e))
  where
    same : {x y : Bytes} → done x ≡ done y → x ≡ y
    same p = cc

keys_laws : KeysLaws signing_crypto keys
keys_laws = record {
  set_bytes_lem = λ b. refl;
  big_bytes_lem = λ n. refl;
  asn1_lem = marshal_lem;
  base64_lem = λ b. ap done (bytes_from-text_of b);
  hex_lem = λ b. ap done (bytes_from-text_of b);
  sign_lem = λ k t d e. (1, 2, e, omega arith, omega arith);
  public_lem = λ b k p e. refl;
  verify_lem = λ b k p t d e s. refl;
}

abbrev short : Bytes
short = replicate 31 0 ++ (1 ∷ []) ++ (replicate 31 0 ++ (2 ∷ []))

verify_fetchai_signature_libp2p-sign_fetchai_example :
    verify_fetchai_signature_libp2p signing_crypto keys (7 ∷ []) (text_of short) (text_of (5 ∷ []))
    ≡ ok true
unfolding fetchai_public_key_from_fetchai_private_key sign_fetchai key_pair_from_fetchai_key
    convert_der_encoded_signature_to_str pad_to_left int_bytes text_of letters bytes_from
verify_fetchai_signature_libp2p-sign_fetchai_example =
    verify_fetchai_signature_libp2p-sign_fetchai signing_crypto keys keys_laws (7 ∷ []) "b"
      (text_of short) (text_of (5 ∷ [])) signed refl
  where
    signed : sign_fetchai signing_crypto keys (7 ∷ []) "b" ≡ ok (text_of short)
    signed = refl

-- ===== src/Por/Signing/RoundTrip.antt =====
-- Signatures from one form to the other and back, and from the signer to the verifier.
use open_acn.Base.{
  String, ℕ, zero, suc, ◌+◌, ◌-◌, ◌^◌, ◌≤◌, ◌<◌, ◌≡◌, refl, sym, ap, ◌∙◌, Bool, true, false, not,
  done, msg, if◌then◌else◌, Result, ok, err, [], ◌∷◌, ◌++◌, length, take, drop, replicate, All, leb,
  ◌==◌, arith, length-append, length-replicate, take-append-drop, take-append_self,
  drop-append_self, take-of_length-le, append-nil,
}
use open_acn.Base.Pure.{bind-eq-ok, from_except-eq-ok, ◌>>=◌, from_except}
use open_acn.Wire.Word.{Bytes}
use open_acn.Por.Crypto.{Crypto}
use open_acn.Por.Ledger.{pad_to_left, convert_str_encoded_signature_to_der}
use open_acn.Por.Digits.{
  set_bytes, int_bytes, int_bytes-set_bytes, set_bytes-int_bytes, length-int_bytes,
}
use open_acn.Por.Signing.{
  Keys, KeysLaws, both_components, copy_onto, pub_key_from_fetchai_public_key,
  key_pair_from_fetchai_key, fetchai_public_key_from_fetchai_private_key,
  convert_der_encoded_signature_to_str, sign_fetchai, verify_fetchai_signature_libp2p,
}

abbrev IsBytes : Bytes → Type 0
IsBytes bs = All (λ b. b < 256) bs

take-IsBytes : (n : ℕ) (bs : Bytes) → IsBytes bs → IsBytes (take n bs)
take-IsBytes zero bs h = tt
take-IsBytes (suc n) [] h = tt
take-IsBytes (suc n) (b ∷ bs) h = (h.0, take-IsBytes n bs h.1)

drop-IsBytes : (n : ℕ) (bs : Bytes) → IsBytes bs → IsBytes (drop n bs)
drop-IsBytes zero bs h = h
drop-IsBytes (suc n) [] h = tt
drop-IsBytes (suc n) (b ∷ bs) h = drop-IsBytes n bs h.1

length-take : (n : ℕ) (bs : Bytes) → n ≤ length bs → length (take n bs) ≡ n
length-take zero bs h = refl
length-take (suc n) [] h = absurd (omega arith)
length-take (suc n) (b ∷ bs) h = ap suc (length-take n bs (omega arith))

length-drop : (n : ℕ) (bs : Bytes) → length (drop n bs) ≡ length bs - n
length-drop zero bs = omega arith
length-drop (suc n) [] = omega arith
length-drop (suc n) (b ∷ bs) = omega (arith, length-drop n bs)

-- Padding puts back the zeros that were taken off.
pad_to_left-zeros :
    (k size : ℕ) (d b : Bytes) → replicate k 0 ++ d ≡ b → length b ≡ size → pad_to_left d size ≡ b
unfolding pad_to_left
pad_to_left-zeros k size d b e len = go k total e
  where
    total : k + length d ≡ size
    total =
        omega (arith, ap length e, length-append (replicate k 0) d, length-replicate {A = ℕ} k 0)

    go : (j : ℕ) → j + length d ≡ size → replicate j 0 ++ d ≡ b → pad_to_left d size ≡ b
    go zero p q = let t : leb size (length d) ≡ true = ground arith in rw t q
    go (suc j) p q =
        let t : leb size (length d) ≡ false = ground arith in
        let u : size - length d ≡ suc j = omega arith in rw (t, u) q

-- Padding puts zeros before bytes that are not too many.
pad_to_left-le :
    (d : Bytes) (size : ℕ)
    → length d ≤ size
    → (pad_to_left d size ≡ replicate (size - length d) 0 ++ d)
      × (length (pad_to_left d size) ≡ size)
pad_to_left-le d size h =
    let b = replicate (size - length d) 0 ++ d in
    let len : length b ≡ size = omega (
      arith,
      length-append (replicate (size - length d) 0) d,
      length-replicate {A = ℕ} (size - length d) 0,
    ) in
    let e = pad_to_left-zeros (size - length d) size d b refl len in (e, ap length e ∙ len)

copy_onto-le : (dst x : Bytes) → length x ≤ length dst → copy_onto dst x ≡ x ++ drop (length x) dst
copy_onto-le dst x h = ap (λ l. l ++ drop (length x) dst) (take-of_length-le (length dst) x h)

both_components-append :
    (r s : Bytes) → length r ≡ 32 → length s ≡ 32 → both_components r s ≡ r ++ s
both_components-append r s hr hs =
    ap (λ out. take 32 out ++ copy_onto (drop 32 out) s) (copied r 64 hr (omega arith))
    ∙ ap (λ x. x ++ copy_onto (drop 32 (r ++ replicate 32 0)) s) first
    ∙ ap (λ x. r ++ copy_onto x s) second
    ∙ ap (λ x. r ++ x) (copied s 32 hs (omega arith) ∙ append-nil s)
  where
    copied :
        (x : Bytes) (n : ℕ)
        → length x ≡ 32
        → 32 ≤ n
        → copy_onto (replicate n 0) x ≡ x ++ drop 32 (replicate n 0)
    copied x n h le =
        copy_onto-le (replicate n 0) x (omega (arith, length-replicate {A = ℕ} n 0))
        ∙ ap (λ m. x ++ drop m (replicate n 0)) h

    first : take 32 (r ++ replicate 32 0) ≡ r
    first = ap (λ n. take n (r ++ replicate 32 0)) (sym hr) ∙ take-append_self r (replicate 32 0)

    second : drop 32 (r ++ replicate 32 0) ≡ replicate 32 0
    second = ap (λ n. drop n (r ++ replicate 32 0)) (sym hr) ∙ drop-append_self r (replicate 32 0)

module _ (c : Crypto) (k : Keys c) (laws : KeysLaws c k) where
  -- 32 bytes are read as a number and written as themselves.
  component_back :
      (b : Bytes) → IsBytes b → length b ≡ 32 → pad_to_left (k.big_bytes (c.set_bytes b)) 32 ≡ b
  component_back b h len =
      let (j, e) = int_bytes-set_bytes b h in
      ap (λ n. pad_to_left (k.big_bytes n) 32) (laws.set_bytes_lem b)
      ∙ ap (λ d. pad_to_left d 32) (laws.big_bytes_lem (set_bytes b))
      ∙ pad_to_left-zeros j 32 (int_bytes (set_bytes b)) b e len

  -- A number below 2^256 is written as 32 bytes and read as itself.
  component_forth :
      (n : ℕ)
      → n < 256 ^ 32
      → (length (pad_to_left (k.big_bytes n) 32) ≡ 32)
        × (c.set_bytes (pad_to_left (k.big_bytes n) 32) ≡ n)
  component_forth n h =
      let (e, len) = pad_to_left-le (int_bytes n) 32 (length-int_bytes 32 n h) in
      let same : pad_to_left (k.big_bytes n) 32 ≡ pad_to_left (int_bytes n) 32 =
        ap (λ d. pad_to_left d 32) (laws.big_bytes_lem n) in
      (
        ap length same ∙ len,
        laws.set_bytes_lem (pad_to_left (k.big_bytes n) 32)
            ∙ ap set_bytes (same ∙ e)
            ∙ set_bytes-int_bytes (32 - length (int_bytes n)) n,
      )

  -- A signature of 64 bytes that has a DER form is what that form is converted back to.
  convert_der-convert_str :
      (s d : Bytes)
      → IsBytes s
      → convert_str_encoded_signature_to_der c s ≡ ok d
      → convert_der_encoded_signature_to_str c k d ≡ ok s
  unfolding convert_str_encoded_signature_to_der convert_der_encoded_signature_to_str
  convert_der-convert_str s d h e =
      let (len, m) = marshalled (length s == 64) refl e in
      let halves =
        both_components-append _ _ (ap length (first len) ∙ length-take 32 s (omega arith))
          (ap length (second len) ∙ length-drop 32 s ∙ ap (λ n. n - 32) len) in
      rw (laws.asn1_lem _ _ d m) (
        ap ok (
          halves
          ∙ ap (λ x. x ++ written (drop 32 s)) (first len)
          ∙ ap (λ x. take 32 s ++ x) (second len)
          ∙ take-append-drop 32 s))
    where
      written : Bytes → Bytes
      written b = pad_to_left (k.big_bytes (c.set_bytes b)) 32

      first : length s ≡ 64 → pad_to_left (k.big_bytes (c.set_bytes (take 32 s))) 32 ≡ take 32 s
      first len = component_back (take 32 s) (take-IsBytes 32 s h) (length-take 32 s (omega arith))

      second : length s ≡ 64 → pad_to_left (k.big_bytes (c.set_bytes (drop 32 s))) 32 ≡ drop 32 s
      second len =
          component_back (drop 32 s) (drop-IsBytes 32 s h) (length-drop 32 s ∙ ap (λ n. n - 32) len)

      marshalled :
          (b : Bool)
          → (length s == 64) ≡ b
          → (if not b
              then err (msg "invalid secp256k1 signature length")
              else from_except (c.asn1_marshal (c.set_bytes (take 32 s)) (c.set_bytes (drop 32 s))))
            ≡ ok d
          → (length s ≡ 64)
            × (c.asn1_marshal (c.set_bytes (take 32 s)) (c.set_bytes (drop 32 s)) ≡ done d)
      marshalled true t p = (ground arith, from_except-eq-ok _ p)
      marshalled false t p = cc

  -- Two numbers below 2^256 have a string form of 64 bytes, which is converted to their DER form.
  convert_str-convert_der :
      (r s : ℕ) (d : Bytes)
      → c.asn1_marshal r s ≡ done d
      → r < 256 ^ 32
      → s < 256 ^ 32
      → (b : Bytes) × (convert_der_encoded_signature_to_str c k d ≡ ok b)
        × (convert_str_encoded_signature_to_der c b ≡ ok d)
  unfolding convert_str_encoded_signature_to_der convert_der_encoded_signature_to_str
  convert_str-convert_der r s d m hr hs =
      let (len_r, back_r) = component_forth r hr in
      let (len_s, back_s) = component_forth s hs in
      let x = pad_to_left (k.big_bytes r) 32 in
      let y = pad_to_left (k.big_bytes s) 32 in
      (
        x ++ y,
        rw (laws.asn1_lem r s d m) (ap ok (both_components-append x y len_r len_s)),
        both x y len_r len_s back_r back_s,
      )
    where
      both :
          (x y : Bytes)
          → length x ≡ 32
          → length y ≡ 32
          → c.set_bytes x ≡ r
          → c.set_bytes y ≡ s
          → convert_str_encoded_signature_to_der c (x ++ y) ≡ ok d
      both x y lx ly ex ey =
          let front : take 32 (x ++ y) ≡ x =
            ap (λ n. take n (x ++ y)) (sym lx) ∙ take-append_self x y in
          let back : drop 32 (x ++ y) ≡ y =
            ap (λ n. drop n (x ++ y)) (sym lx) ∙ drop-append_self x y in
          let whole : length (x ++ y) ≡ 64 = omega (arith, length-append x y) in
          rw (whole, front, back, ex, ey, m) refl

  -- The steps of a signature that was made.
  signed_steps :
      (text : Bytes) (priv_key signature : String)
      → sign_fetchai c k text priv_key ≡ ok signature
      → (pair : k.PrivKey × k.NodeKey) × (d : Bytes) × (str : Bytes) × (key_pair_from_fetchai_key c
            k priv_key
          ≡ ok pair)
        × (k.sign pair.0 text ≡ done d)
        × (convert_der_encoded_signature_to_str c k d ≡ ok str)
        × (k.base64_encode str ≡ signature)
  unfolding sign_fetchai
  signed_steps text priv_key signature signed =
      let (pair, keys, e1) = bind-eq-ok (key_pair_from_fetchai_key c k priv_key) with_pair signed in
      let (d, made, e2) = bind-eq-ok (from_except (k.sign pair.0 text)) with_der e1 in
      let (str, converted, e3) =
        bind-eq-ok (convert_der_encoded_signature_to_str c k d) encoded e2 in
      (pair, d, str, keys, from_except-eq-ok _ made, converted, cc)
    where
      encoded : Bytes → Result String
      encoded str = ok (k.base64_encode str)

      with_der : Bytes → Result String
      with_der d = convert_der_encoded_signature_to_str c k d >>= encoded

      with_pair : k.PrivKey × k.NodeKey → Result String
      with_pair pair = from_except (k.sign pair.0 text) >>= with_der

  key_steps :
      (priv_key : String) (pair : k.PrivKey × k.NodeKey)
      → key_pair_from_fetchai_key c k priv_key ≡ ok pair
      → (b : Bytes) × (c.hex_decode (c.to_bytes priv_key) ≡ done b)
        × (k.key_pair_from_std_key (k.priv_key_from_bytes b).0 ≡ done pair)
  unfolding key_pair_from_fetchai_key
  key_steps priv_key pair keys =
      let (b, hex, made) =
        bind-eq-ok (from_except (c.hex_decode (c.to_bytes priv_key)))
          (λ b. from_except (k.key_pair_from_std_key (k.priv_key_from_bytes b).0)) keys in
      (b, from_except-eq-ok _ hex, from_except-eq-ok _ made)

  -- What SignFetchAI signs with a private key, VerifyFetchAISignatureLibp2p verifies under the
  -- public key that FetchAIPublicKeyFromFetchAIPrivateKey gives for it.
  pub verify_fetchai_signature_libp2p-sign_fetchai :
      (text : Bytes) (priv_key signature pubkey : String)
      → sign_fetchai c k text priv_key ≡ ok signature
      → fetchai_public_key_from_fetchai_private_key c k priv_key ≡ ok pubkey
      → verify_fetchai_signature_libp2p c k text signature pubkey ≡ ok true
  unfolding fetchai_public_key_from_fetchai_private_key verify_fetchai_signature_libp2p
      pub_key_from_fetchai_public_key
  verify_fetchai_signature_libp2p-sign_fetchai text priv_key signature pubkey signed public =
      let (pair, d, str, keys, made, converted, encoded) =
        signed_steps text priv_key signature signed in
      let (b, hex, paired) = key_steps priv_key pair keys in
      let (r, s, m, hr, hs) = laws.sign_lem pair.0 text d made in
      let (str', there, back) = convert_str-convert_der r s d m hr hs in
      let der : convert_str_encoded_signature_to_der c str ≡ ok d =
        ap (convert_str_encoded_signature_to_der c) (ok-inj (sym converted ∙ there)) ∙ back in
      rw
        (
          ← encoded,
          ← the_key b hex,
          laws.hex_lem (k.serialize_compressed (k.priv_key_from_bytes b).1),
          laws.public_lem b pair.0 pair.1 paired,
          laws.base64_lem str,
          der,
        )
        (ap from_except (laws.verify_lem b pair.0 pair.1 text d paired made))
    where
      ok-inj : {A : Type 0} {x y : A} → ok x ≡ ok y → x ≡ y
      ok-inj e = cc

      the_key :
          (b : Bytes)
          → c.hex_decode (c.to_bytes priv_key) ≡ done b
          → c.of_bytes (c.hex_encode (k.serialize_compressed (k.priv_key_from_bytes b).1)) ≡ pubkey
      the_key b hex = ok-inj (rw hex at public)

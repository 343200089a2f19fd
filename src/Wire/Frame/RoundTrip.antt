-- ===== src/Wire/Frame/RoundTrip.antt =====
-- `WriteBytes` on one side of a stream and `ReadBytes` on the other.
use open_acn.Base.{
  append_assoc, ℕ, ◌^◌, ◌≤◌, ◌<◌, ◌≡◌, ◌++◌, Option, none, some, length, Err, msg, ok, false, err,
  arith, is_empty, refl, ltb-true, ltb-false, drop, take, drop-append_self, take-append_self,
  length-append, ap, ◌∙◌,
}
use mathlib.Core.Option.{some-injective}
use open_acn.Wire.Word.{Bytes, put_uint32, uint32, uint32-put_uint32}
use open_acn.Wire.Conn.{Conn, arriving, write}
use open_acn.Wire.Buffered.{Reader, new_reader, content, read_full}
use open_acn.Wire.Buffered.Full.{FullRead, read_full-FullRead}
use open_acn.Wire.Frame.{max_int32, max_message_size, frame, write_bytes, read_bytes, read_frame}

-- What `c'` has sent since `c`.
abbrev pub sent_since : Conn → Conn → Bytes
sent_since c c' = drop (length c.outgoing) c'.outgoing

pub length-put_uint32 : (n : ℕ) → length (put_uint32 n) ≡ 4
unfolding put_uint32
length-put_uint32 n = refl

-- The reader of a header gets the number in it, and then stands before what follows.
pub read_frame_header :
    (n : ℕ) (rest : Bytes) (r : Reader)
    → content r ≡ put_uint32 n ++ rest
    → n < 2 ^ 32
    → (h : Bytes) × (r' : Reader) × (read_full 4 r ≡ (ok h, r'))
      × (uint32 h ≡ n)
      × (content r' ≡ rest)
      × (r'.conn.ended ≡ r.conn.ended)
read_frame_header n rest r e fits = (
  take 4 (content r),
  f.after,
  f.result,
  ap uint32 (rw e header) ∙ uint32-put_uint32 n fits,
  f.rest ∙ rw e payload,
  f.ended,
)
  where
    header : take 4 (put_uint32 n ++ rest) ≡ put_uint32 n
    header = unfold put_uint32 in refl

    payload : drop 4 (put_uint32 n ++ rest) ≡ rest
    payload = unfold put_uint32 in refl

    f : FullRead 4 r
    f = read_full-FullRead 4 r (rw e (unfold put_uint32 in omega arith))

read_frame_step :
    (r r1 r2 : Reader) (h p : Bytes) (n : ℕ)
    → read_full 4 r ≡ (ok h, r1)
    → uint32 h ≡ n
    → n ≤ max_message_size
    → read_full n r1 ≡ (ok p, r2)
    → read_frame r ≡ (ok p, r2)
unfolding read_frame
read_frame_step r r1 r2 h p n got size small payload =
    rw (got, size, ltb-false max_message_size n small, payload)

-- A reader before a whole frame that is not too long returns its bytes, and leaves what follows.
pub read_frame-frame :
    (b rest : Bytes) (r : Reader)
    → content r ≡ frame b ++ rest
    → length b ≤ max_message_size
    → (r' : Reader) × (read_frame r ≡ (ok b, r')) × (content r' ≡ rest)
read_frame-frame b rest r e small =
    let (h, r1, got, size, left, _) =
      read_frame_header (length b) (b ++ rest) r (e ∙ append_assoc (put_uint32 (length b)) b rest)
        (omega arith) in
    let f : FullRead (length b) r1 =
      read_full-FullRead (length b) r1 (omega (arith, ap length left, length-append b rest)) in
    (
      f.after,
      read_frame_step r r1 f.after h _ (length b) got size small f.result
          ∙ ap (λ p. (ok p, f.after)) (ap (take (length b)) left ∙ take-append_self b rest),
      f.rest ∙ ap (drop (length b)) left ∙ drop-append_self b rest,
    )

-- A reader before a header that announces more than 3 MiB returns the error for it, whether or not
-- the message follows.
read_frame_large :
    (n : ℕ) (rest : Bytes) (r : Reader)
    → content r ≡ put_uint32 n ++ rest
    → max_message_size < n
    → n < 2 ^ 32
    → (read_frame r).0 ≡ err (msg "expected message size larger than maximum allowed")
unfolding read_frame
read_frame_large n rest r e large fits =
    let (h, r1, got, size, left, _) = read_frame_header n rest r e fits in
    rw (got, size, ltb-true max_message_size n large)

-- The frame of an accepted message is what the writer puts on the connection.
pub write_bytes-sent_since :
    (b : Bytes) (c : Conn) {s : Option Conn}
    → is_empty b ≡ false
    → write_bytes b (some c) ≡ (ok tt, s)
    → (c' : Conn) × (s ≡ some c') × (sent_since c c' ≡ frame b) × (length b ≤ max_int32)
unfolding write_bytes write
write_bytes-sent_since b c {s} ne e = go c.broken refl
  where
    go :
        (o : Option Err)
        → c.broken ≡ o
        → (c' : Conn) × (s ≡ some c') × (sent_since c c' ≡ frame b) × (length b ≤ max_int32)
    go none q = (
      record c { outgoing = c.outgoing ++ frame b },
      ground arith,
      drop-append_self c.outgoing (frame b),
      ground arith,
    )
    go (some x) q = ground arith

-- A nonempty message of at most 3 MiB that `WriteBytes` sent on one stream is what `ReadBytes`
-- returns on the other side, however the network cuts it up and whatever follows it.
pub read_bytes-write_bytes :
    (b rest : Bytes) (c c' d : Conn)
    → is_empty b ≡ false
    → length b ≤ max_message_size
    → write_bytes b (some c) ≡ (ok tt, some c')
    → arriving d ≡ sent_since c c' ++ rest
    → (read_bytes (some d)).0 ≡ ok b
unfolding read_bytes
read_bytes-write_bytes b rest c c' d ne small e inc =
    let (w, same, sent, _) = write_bytes-sent_since b c ne e in
    let (r', done, _) =
      read_frame-frame b rest (new_reader d) (inc ∙ ap (λ l. l ++ rest) (ap_sent same ∙ sent))
        small in
    ap (λ x. x.0) done
  where
    ap_sent : {w : Conn} → some c' ≡ some w → sent_since c c' ≡ sent_since c w
    ap_sent e = ap (λ x. sent_since c x) (some-injective _ _ e)

-- ===== src/Wire/Frame/Delivery.antt =====
-- `ReadBytesConn` and the socket of aea/pipe.go, which make one `Read` for the payload, against
-- the ways in which a network can deliver it.
use open_acn.Base.{
  ℕ, ◌-◌, ◌^◌, ◌≤◌, ◌<◌, ◌≡◌, List, [], ◌∷◌, ◌++◌, length, ok, arith, is_empty, ltb-false,
  replicate, length-append, ap, ◌∙◌, false, take-of_length-le, drop-of_length-le, append-nil, suc,
}
use open_acn.Wire.Word.{Bytes, put_uint32, uint32}
use open_acn.Wire.Conn.{Conn, read}
use open_acn.Wire.Frame.{max_int32, max_message_size, into_buffer, read_bytes_conn, socket_read}

abbrev pub delivering : Conn → List Bytes → Conn
delivering c segs = record c { incoming = segs }

-- One `Read` at a delivery that holds no more than was asked for uses it up.
read_short :
    (n : ℕ) (p : Bytes) (segs : List Bytes) (c : Conn)
    → length p ≤ suc n
    → read (suc n) (delivering c (p ∷ segs)) ≡ (ok p, delivering c segs)
unfolding read
read_short n p segs c h =
    ground (arith, take-of_length-le (suc n) p h, drop-of_length-le (suc n) p h)

-- The length and the payload in two deliveries: the header, then the message and what follows.
module _ (b : Bytes) (segs : List Bytes) (c : Conn) (small : length b < 2 ^ 32) where
  header_read :
      read 4 (delivering c (put_uint32 (length b) ∷ segs))
      ≡ (ok (put_uint32 (length b)), delivering c segs)
  header_read = read_short 3 (put_uint32 (length b)) segs c (unfold put_uint32 in omega arith)

  header_value : uint32 (into_buffer 4 (put_uint32 (length b))) ≡ length b
  header_value = unfold put_uint32 uint32 in omega arith

-- A read of the whole payload.
payload_read :
    (b : Bytes) (segs : List Bytes) (c : Conn)
    → is_empty b ≡ false
    → read (length b) (delivering c (b ∷ segs)) ≡ (ok b, delivering c segs)
payload_read [] segs c h = cc
payload_read (x ∷ b) segs c h = read_short (length b) (x ∷ b) segs c (omega arith)

into_buffer_full : (b : Bytes) → into_buffer (length b) b ≡ b
into_buffer_full b = ap (λ n. b ++ replicate n 0) (zero_left (length b)) ∙ append-nil b
  where
    zero_left : (n : ℕ) → n - n ≡ 0
    zero_left n = omega arith

-- A message that is not empty and at most 3 MiB, whose length and payload each arrive in one
-- delivery, is read whole, and what follows is left.
read_bytes_conn_whole :
    (b : Bytes) (segs : List Bytes) (c : Conn)
    → is_empty b ≡ false
    → length b ≤ max_message_size
    → read_bytes_conn (delivering c (put_uint32 (length b) ∷ b ∷ segs)) ≡ (ok b, delivering c segs)
unfolding read_bytes_conn
read_bytes_conn_whole b segs c ne small = rw (
  header_read b (b ∷ segs) c (omega arith),
  header_value b segs c (omega arith),
  ltb-false max_message_size (length b) small,
  payload_read b segs c ne,
  into_buffer_full b,
)

-- One `Read` of `suc n` bytes at a delivery of fewer.
first_piece :
    (p q : Bytes) (segs : List Bytes) (c : Conn)
    → is_empty p ≡ false
    → read (length (p ++ q)) (delivering c (p ∷ segs)) ≡ (ok p, delivering c segs)
first_piece [] q segs c h = cc
first_piece (x ∷ p) q segs c h =
    read_short (length (p ++ q)) (x ∷ p) segs c (omega (arith, length-append p q))

into_buffer_short : (p q : Bytes) → into_buffer (length (p ++ q)) p ≡ p ++ replicate (length q) 0
into_buffer_short p q = ap (λ n. p ++ replicate n 0) (omega (arith, length-append p q))

-- Of a message of at most 3 MiB whose length arrives in one delivery and its payload in two, the
-- first not empty, the first piece is returned without an error, filled up with zeros, and the
-- second is left to be read next.
pub read_bytes_conn_split :
    (p q : Bytes) (segs : List Bytes) (c : Conn)
    → is_empty p ≡ false
    → length (p ++ q) ≤ max_message_size
    → read_bytes_conn (delivering c (put_uint32 (length (p ++ q)) ∷ p ∷ q ∷ segs))
      ≡ (ok (p ++ replicate (length q) 0), delivering c (q ∷ segs))
unfolding read_bytes_conn
read_bytes_conn_split p q segs c hp small = rw (
  header_read (p ++ q) (p ∷ q ∷ segs) c (omega arith),
  header_value (p ++ q) segs c (omega arith),
  ltb-false max_message_size (length (p ++ q)) small,
  first_piece p q (q ∷ segs) c hp,
  into_buffer_short p q,
)

-- The agent's socket reads a message that is not empty and at most 2^31 - 1 bytes whole, when
-- its length and its payload each arrive in one delivery, and leaves what follows.
socket_read_whole :
    (b : Bytes) (segs : List Bytes) (c : Conn)
    → is_empty b ≡ false
    → length b ≤ max_int32
    → socket_read (delivering c (put_uint32 (length b) ∷ b ∷ segs)) ≡ (ok b, delivering c segs)
unfolding socket_read
socket_read_whole b segs c ne small = rw (
  header_read b (b ∷ segs) c (omega arith),
  header_value b segs c (omega arith),
  payload_read b segs c ne,
  into_buffer_full b,
)

-- A message that is not empty and at most 3 MiB, whose length and payload each arrive in one
-- delivery, is read whole from a delegate connection and by the agent's socket, and what follows is
-- left.
pub whole_message_read :
    (b : Bytes) (segs : List Bytes) (c : Conn)
    → is_empty b ≡ false
    → length b ≤ max_message_size
    → (read_bytes_conn (delivering c (put_uint32 (length b) ∷ b ∷ segs))
        ≡ (ok b, delivering c segs))
      × (socket_read (delivering c (put_uint32 (length b) ∷ b ∷ segs)) ≡ (ok b, delivering c segs))
whole_message_read b segs c ne small =
    (read_bytes_conn_whole b segs c ne small, socket_read_whole b segs c ne (omega (arith, small)))

-- ===== src/Wire/Frame.antt =====
-- A message on the wire is its length in four bytes, then its bytes: `WriteBytesConn`,
-- `ReadBytesConn`, `WriteBytes` and `ReadBytes` of utils/utils.go, and `Read` and `Write` of the
-- socket of aea/pipe.go. Logging is left out.
pub mod RoundTrip
pub mod Delivery
use open_acn.Base.{
  ℕ, ◌+◌, ◌-◌, ◌*◌, ◌^◌, List, [], ◌∷◌, ◌++◌, Option, none, some, length, replicate, Err, msg,
  Result, ok, err, panic, Exec, pure, raise, ◌>>=◌, if◌then◌else◌, is_empty, ltb,
}
use open_acn.Wire.Word.{Bytes, put_uint32, uint32}
use open_acn.Wire.Conn.{Conn, read, write}
use open_acn.Wire.Buffered.{Reader, new_reader, read_full}

-- `math.MaxInt32`
abbrev pub max_int32 : ℕ
max_int32 = 2 ^ 31 - 1

-- `maxMessageSizeDelegateConnection`
abbrev pub max_message_size : ℕ
max_message_size = 1024 * 1024 * 3

abbrev pub frame : Bytes → Bytes
frame b = put_uint32 (length b) ++ b

-- The buffer of `n` zero bytes into which `p` was read.
abbrev pub into_buffer : ℕ → Bytes → Bytes
into_buffer n p = p ++ replicate (n - length p) 0

unfoldable pub write_bytes_conn : Bytes → Exec Conn (Unit {0})
write_bytes_conn b =
    if ltb max_int32 (length b)
    then raise (msg "data size too large")
    else if is_empty b
    then pure tt
    else write (frame b)

-- One `conn.Read` for the length and one for the payload; the counts that they return are not read.
unfoldable pub read_bytes_conn : Exec Conn Bytes
read_bytes_conn = do
  header ← read 4
  let size = uint32 (into_buffer 4 header)
  if ltb max_message_size size
      then raise (msg "expected message size larger than maximum allowed")
      else do p ← read size; pure (into_buffer size p)

-- A `network.Stream` that may be nil.
abbrev pub Stream : Type 0
Stream = Option Conn

abbrev on_conn {ℓ} : {A : Type ℓ} → Result A × Conn → Result A × Option Conn
on_conn (r, c) = (r, some c)

unfoldable pub write_bytes : Bytes → Exec Stream (Unit {0})
write_bytes b s =
    if ltb max_int32 (length b)
    then raise (msg "data size too large") s
    else if is_empty b
    then pure tt s
    else elim s [ none ↦ (panic, none) | some c ↦ on_conn (write (frame b) c) ]

unfoldable pub read_frame : Exec Reader Bytes
read_frame = do
  header ← read_full 4
  let size = uint32 header
  if ltb max_message_size size
      then raise (msg "expected message size larger than maximum allowed")
      else read_full size

abbrev on_stream {ℓ} : {A : Type ℓ} → Result A × Reader → Result A × Stream
on_stream (r, b) = (r, some b.conn)

-- The buffered reader lives for one call: what it holds at the end is dropped.
unfoldable pub read_bytes : Exec Stream Bytes
unfolding read_frame
read_bytes none = (panic, none)
read_bytes (some c) = on_stream (read_frame (new_reader c))

-- `(*TCPSocketChannel).Read`: no bound on the length.
unfoldable pub socket_read : Exec Conn Bytes
socket_read = do
  header ← read 4
  let size = uint32 (into_buffer 4 header)
  p ← read size
  pure (into_buffer size p)

-- `(*TCPSocketChannel).Write`: an empty message is sent.
unfoldable pub socket_write : Bytes → Exec Conn (Unit {0})
socket_write b = if ltb max_int32 (length b) then raise (msg "value too large") else write (frame b)

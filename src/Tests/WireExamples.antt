-- ===== src/Tests/WireExamples.antt =====
-- Frames at small messages.
use open_acn.Base.{◌≡◌, [], ◌∷◌, some, ok, refl, arith}
use open_acn.Wire.Word.{Bytes, put_uint32}
use open_acn.Wire.Conn.{Conn, write}
use open_acn.Wire.Frame.{write_bytes, read_bytes, read_bytes_conn, socket_read}
use open_acn.Wire.Frame.RoundTrip.{read_bytes-write_bytes}
use open_acn.Wire.Frame.Delivery.{whole_message_read, read_bytes_conn_split}
use open_acn.Tests.Fixtures.{quiet}

abbrev hello : Bytes
hello = 104 ∷ 105 ∷ []

abbrev sent : Conn
sent = record quiet { outgoing = 0 ∷ 0 ∷ 0 ∷ 2 ∷ 104 ∷ 105 ∷ [] }

-- The frame of `hello` in three pieces, and a byte of the next frame.
abbrev in_pieces : Conn
in_pieces = record quiet { incoming = (0 ∷ 0 ∷ 0 ∷ []) ∷ (2 ∷ 104 ∷ []) ∷ (105 ∷ 9 ∷ []) ∷ [] }

hello_written : write_bytes hello (some quiet) ≡ (ok tt, some sent)
unfolding write_bytes write put_uint32
hello_written = refl

read_bytes-write_bytes_example : (read_bytes (some in_pieces)).0 ≡ ok hello
read_bytes-write_bytes_example =
    read_bytes-write_bytes hello (9 ∷ []) quiet sent in_pieces refl (omega arith) hello_written refl

whole_message_read_example :
    (read_bytes_conn (record quiet { incoming = put_uint32 2 ∷ hello ∷ [] }) ≡ (ok hello, quiet))
    × (socket_read (record quiet { incoming = put_uint32 2 ∷ hello ∷ [] }) ≡ (ok hello, quiet))
whole_message_read_example = whole_message_read hello [] quiet refl (omega arith)

read_bytes_conn_split_example :
    read_bytes_conn (record quiet { incoming = put_uint32 2 ∷ (104 ∷ []) ∷ (105 ∷ []) ∷ [] })
    ≡ (ok (104 ∷ 0 ∷ []), record quiet { incoming = (105 ∷ []) ∷ [] })
read_bytes_conn_split_example =
    read_bytes_conn_split (104 ∷ []) (105 ∷ []) [] quiet refl (omega arith)

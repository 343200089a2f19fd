-- ===== src/Wire/Pipe.antt =====
-- `common.Pipe` as the protocol uses it, and the pipes that implement it.
use open_acn.Base.{Exec}
use open_acn.Wire.Word.{Bytes}
use open_acn.Wire.Conn.{Conn}
use open_acn.Wire.Frame.{
  Stream, write_bytes_conn, read_bytes_conn, write_bytes, read_bytes, socket_read, socket_write,
}

-- A pipe over a state: the protocol calls `Read` and `Write` alone.
pub record Pipe (S : Type 0) : Type 0 where
  pub read : Exec S Bytes
  pub write : Bytes → Exec S (Unit {0})

abbrev pub conn_pipe : Pipe Conn
conn_pipe = record { read = read_bytes_conn; write = write_bytes_conn }

abbrev pub stream_pipe : Pipe Stream
stream_pipe = record { read = read_bytes; write = write_bytes }

abbrev pub socket_pipe : Pipe Conn
socket_pipe = record { read = socket_read; write = socket_write }

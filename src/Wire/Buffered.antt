-- ===== src/Wire/Buffered.antt =====
-- `bufio.Reader` with its buffer of 4096 bytes, over a connection, and `io.ReadFull`.
mod Laws
pub mod Full
pub mod End
use open_acn.Base.{
  ℕ, zero, suc, ◌+◌, ◌-◌, ◌≤◌, ◌<◌, ◌≡◌, List, [], ◌∷◌, ◌++◌, Option, none, some, arith, length,
  take, drop, flatten, Err, eof, unexpected_eof, Result, ok, err, panic, Exec, if◌then◌else◌,
  is_empty, leb,
}
use open_acn.Wire.Word.{Bytes}
use open_acn.Wire.Conn.{Conn, read}

-- `default_buffer_size` of package bufio
abbrev pub buffer_size : ℕ
buffer_size = 4096

pub record Reader : Type 0 where
  pub buffered : Bytes
  pub conn : Conn

-- What the reader will still deliver.
abbrev pub content : Reader → Bytes
content r = r.buffered ++ flatten r.conn.incoming

abbrev pub new_reader : Conn → Reader
new_reader c = record { buffered = []; conn = c }

abbrev direct : Result Bytes × Conn → Result Bytes × Reader
direct (ok p, c) = (ok p, record { buffered = []; conn = c })
direct (err e, c) = (err e, record { buffered = []; conn = c })
direct (panic, c) = (panic, record { buffered = []; conn = c })

abbrev fill : ℕ → Result Bytes × Conn → Result Bytes × Reader
fill n (ok p, c) = (ok (take n p), record { buffered = drop n p; conn = c })
fill n (err e, c) = (err e, record { buffered = []; conn = c })
fill n (panic, c) = (panic, record { buffered = []; conn = c })

-- `(*bufio.Reader).Read(p)` with `len(p)` the argument: what is buffered first; with an empty
-- buffer one read of the connection, past the buffer where `p` is as large as it.
unfoldable pub read_buffered : ℕ → Exec Reader Bytes
read_buffered n r =
    if is_empty r.buffered
    then (if leb buffer_size n then direct (read n r.conn) else fill n (read buffer_size r.conn))
    else (ok (take n r.buffered), record r { buffered = drop n r.buffered })

abbrev short_read : Bytes → Err → Err
short_read [] e = e
short_read (x ∷ xs) eof = unexpected_eof
short_read (x ∷ xs) e = e

abbrev next_round :
    Bytes
    → Result Bytes × Reader
    → (Bytes → Reader → Option (Result Bytes × Reader))
    → Option (Result Bytes × Reader)
next_round got (ok p, r) k = k p r
next_round got (err e, r) k = some (err (short_read got e), r)
next_round got (panic, r) k = some (panic, r)

-- The loop of `io.ReadFull(r, buf)` with the bytes that it has so far. A round takes a byte or uses
-- up a delivery of the connection; `none` says that the rounds ran out.
unfoldable pub read_full_loop : ℕ → ℕ → Bytes → Reader → Option (Result Bytes × Reader)
read_full_loop rounds zero got r = some (ok got, r)
read_full_loop zero (suc want) got r = none
read_full_loop (suc rounds) (suc want) got r =
    next_round got (read_buffered (suc want) r)
      (λ p r'. read_full_loop rounds (suc want - length p) (got ++ p) r')

abbrev or_panic : Reader → Option (Result Bytes × Reader) → Result Bytes × Reader
or_panic r none = (panic, r)
or_panic r (some x) = x

abbrev pub rounds_for : ℕ → Reader → ℕ
rounds_for n r = n + length r.conn.incoming

unfoldable pub read_full : ℕ → Exec Reader Bytes
read_full n r = or_panic r (read_full_loop (rounds_for n r) n [] r)

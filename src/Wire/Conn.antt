-- ===== src/Wire/Conn.antt =====
-- A `net.Conn` or `network.Stream` as the code sees it. The environment chooses how the bytes of
-- the other side arrive: each element of `incoming` is what one `Read` can deliver at most.
use open_acn.Base.{
  ℕ, zero, suc, List, [], ◌∷◌, ◌++◌, Option, none, some, take, drop, flatten, Err, Result, ok, err,
  Exec, if◌then◌else◌, is_empty,
}
use open_acn.Wire.Word.{Bytes}

pub record Conn : Type 0 where
  pub incoming : List Bytes
  -- what `Read` returns once `incoming` is used up
  pub ended : Err
  pub outgoing : Bytes
  -- the error of every `Write`, where the connection is broken
  pub broken : Option Err

-- What a connection will still deliver.
abbrev pub arriving : Conn → Bytes
arriving c = flatten c.incoming

-- A delivery of which the first `n` bytes are taken.
abbrev pub take_first : ℕ → Bytes → List Bytes → List Bytes
take_first n seg rest = if is_empty (drop n seg) then rest else drop n seg ∷ rest

abbrev read_segment : ℕ → List Bytes → Conn → Result Bytes × Conn
read_segment n [] c = (err c.ended, c)
read_segment n (seg ∷ rest) c = (ok (take n seg), record c { incoming = take_first n seg rest })

-- `conn.Read(buf)` with `len(buf)` the argument: at most that many bytes, of one delivery.
unfoldable pub read : ℕ → Exec Conn Bytes
read zero c = (ok [], c)
read (suc n) c = read_segment (suc n) c.incoming c

-- `conn.Write(buf)`
unfoldable pub write : Bytes → Exec Conn (Unit {0})
write b c = elim c.broken [
  | none ↦ (ok tt, record c { outgoing = c.outgoing ++ b })
  | some e ↦ (err e, c)
]

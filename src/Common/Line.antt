-- ===== src/Common/Line.antt =====
-- A stream that a handler was given, beside the state of the node that handles it.
pub mod Node
use open_acn.Base.{some, Except, done, fail, raise, Result, ok, Exec}
use open_acn.Wire.Frame.{Stream, read_bytes, write_bytes}
use open_acn.Wire.Conn.{Conn}
use open_acn.Wire.Pipe.{Pipe}

-- Whether `Close` or `Reset` was called on the stream. Their errors are dropped everywhere.
pub data Ending : Type 0 where
  open_still closed reset : Ending

pub record Line : Type 0 where
  pub stream : Stream
  pub ending : Ending

module _ {S : Type 0} where
  abbrev pub put_line : {A : Type 0} → Line → S → Result A × Stream → Result A × (Line × S)
  put_line l s (r, stream) = (r, (record l { stream = stream }, s))

  abbrev pub on_line : {A : Type 0} → Exec Stream A → Exec (Line × S) A
  on_line m (l, s) = put_line l s (m l.stream)

  abbrev pub put_node : {A : Type 0} → Line → Result A × S → Result A × (Line × S)
  put_node l (r, s) = (r, (l, s))

  abbrev pub on_node : {A : Type 0} → Exec S A → Exec (Line × S) A
  on_node m (l, s) = put_node l (m s)

  -- `utils.StreamPipe{Stream: stream}`
  abbrev pub line_pipe : Pipe (Line × S)
  line_pipe = record { read = on_line read_bytes; write = λ b. on_line (write_bytes b) }

  abbrev pub end_line : Ending → Exec (Line × S) (Unit {0})
  end_line e (l, s) = (ok tt, (record l { ending = e }, s))

abbrev pub drop_line : {S A : Type 0} → Result A × (Line × S) → Result A × S
drop_line (r, (l, s)) = (r, s)

abbrev pub new_line : {S : Type 0} → Conn → S → Line × S
new_line c s = (record { stream = some c; ending = open_still }, s)

-- The stream is not used afterwards.
abbrev pub on_new_stream : {S A : Type 0} → Exec (Line × S) A → Except Conn → Exec S A
on_new_stream action (fail e) s = raise e s
on_new_stream action (done c) s = drop_line (action (new_line c s))

-- ===== src/Wire/Buffered/Full.antt =====
-- `io.ReadFull` on a buffered reader that has enough to come.
use open_acn.Base.{
  ℕ, zero, suc, ◌+◌, ◌-◌, ◌≤◌, ◌≡◌, [], ◌++◌, Option, some, arith, length, take, drop, Err, Result,
  ok, err, panic, append_assoc, append-nil, refl, ◌∙◌, ap, sym, length-append, take-append_le,
  drop-append_le,
}
use open_acn.Wire.Word.{Bytes}
use open_acn.Wire.Buffered.{
  Reader, content, read_buffered, read_full_loop, read_full, rounds_for, short_read,
}
use open_acn.Wire.Buffered.Laws.{ReadsTo, read_buffered-ReadsTo}

loop_zero :
    (rounds : ℕ) (got : Bytes) (r : Reader)
    → read_full_loop rounds 0 got r ≡ some (ok (got ++ []), r)
unfolding read_full_loop
loop_zero rounds got r = rw append-nil (ground arith)

module _ (rounds want : ℕ) (got : Bytes) (r : Reader) where
  pub loop_ok :
      {p : Bytes} {r' : Reader}
      → read_buffered (suc want) r ≡ (ok p, r')
      → read_full_loop (suc rounds) (suc want) got r
        ≡ read_full_loop rounds (suc want - length p) (got ++ p) r'
  unfolding read_full_loop
  loop_ok e = rw (e, read_full_loop)

  pub loop_err :
      {x : Err} {r' : Reader}
      → read_buffered (suc want) r ≡ (err x, r')
      → read_full_loop (suc rounds) (suc want) got r ≡ some (err (short_read got x), r')
  unfolding read_full_loop
  loop_err e = rw (e, read_full_loop)

-- The loop has delivered `want` bytes and left what follows them.
record Delivers (want : ℕ) (got : Bytes) (r : Reader) (x : Option (Result Bytes × Reader))
    : Type 0 where
  pub after : Reader
  pub result : x ≡ some (ok (got ++ take want (content r)), after)
  pub rest : content after ≡ drop want (content r)
  pub ended : after.conn.ended ≡ r.conn.ended

read_full_loop-Delivers :
    (rounds want : ℕ) (got : Bytes) (r : Reader)
    → want + length r.conn.incoming ≤ rounds
    → want ≤ length (content r)
    → Delivers want got r (read_full_loop rounds want got r)
read_full_loop-Delivers rounds zero got r room enough = record {
  after = r;
  result = loop_zero rounds got r;
  rest = refl;
  ended = refl;
}
read_full_loop-Delivers zero (suc want) got r room enough = absurd (omega arith)
read_full_loop-Delivers (suc rounds) (suc want) got r room enough =
    go (read_full_loop-Delivers rounds) _ refl (
      read_buffered-ReadsTo want r.buffered r.conn.incoming r.conn.ended r.conn.outgoing
        r.conn.broken)
  where
    go :
        ((w : ℕ) (g : Bytes) (s : Reader)
          → w + length s.conn.incoming ≤ rounds
          → w ≤ length (content s)
          → Delivers w g s (read_full_loop rounds w g s))
        → (x : Result Bytes × Reader) → read_buffered (suc want) r ≡ x
        → ReadsTo (suc want) r x
        → Delivers (suc want) got r (read_full_loop (suc rounds) (suc want) got r)
    go ih (ok p, s) e h =
        let d : Delivers (suc want - length p) (got ++ p) s
            (read_full_loop rounds (suc want - length p) (got ++ p) s) =
          ih (suc want - length p) (got ++ p) s (omega (arith, h.progress))
            (omega (arith, ap length h.split, length-append p (content s))) in
        record {
          after = d.after;
          result =
              loop_ok rounds want got r e
              ∙ d.result
              ∙ ap (λ l. some (ok l, d.after))
                  (append_assoc got p _
                    ∙ ap (λ l. got ++ l)
                        (sym (rw h.split (take-append_le (suc want) p (content s) h.small))));
          rest = d.rest ∙ rw h.split (sym (drop-append_le (suc want) p (content s) h.small));
          ended = d.ended ∙ h.ended;
        }
    go ih (err x, s) e h = absurd (omega (arith, ap length h.1))
    go ih (panic, s) e h = absurd h

-- With enough bytes to come, `read_full` returns exactly the next ones, and leaves the rest.
pub record FullRead (n : ℕ) (r : Reader) : Type 0 where
  pub after : Reader
  pub result : read_full n r ≡ (ok (take n (content r)), after)
  pub rest : content after ≡ drop n (content r)
  pub ended : after.conn.ended ≡ r.conn.ended

-- When at least `n` bytes are still to come, reading `n` returns the first `n` and leaves the
-- rest, however they are cut, and the rounds that it is given are enough.
pub read_full-FullRead : (n : ℕ) (r : Reader) → n ≤ length (content r) → FullRead n r
unfolding read_full
read_full-FullRead n r enough =
    let d : Delivers n [] r (read_full_loop (rounds_for n r) n [] r) =
      read_full_loop-Delivers (rounds_for n r) n [] r (omega arith) enough in
    record { after = d.after; result = rw d.result; rest = d.rest; ended = d.ended }

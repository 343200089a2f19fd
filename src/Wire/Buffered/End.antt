-- ===== src/Wire/Buffered/End.antt =====
-- `io.ReadFull` at the end of what is to come.
use open_acn.Base.{
  ℕ, zero, suc, ◌+◌, ◌-◌, ◌≤◌, ◌≡◌, [], ◌∷◌, ◌++◌, some, arith, length, Result, ok, err, panic,
  refl, ◌∙◌, ap, sym,
}
use open_acn.Wire.Word.{Bytes}
use open_acn.Wire.Buffered.{Reader, content, read_buffered, read_full_loop, read_full, rounds_for}
use open_acn.Wire.Buffered.Laws.{ReadsTo, read_buffered-ReadsTo}
use open_acn.Wire.Buffered.Full.{loop_ok, loop_err}

nil_prefix : (p q : Bytes) → [] ≡ p ++ q → (p ≡ []) × (q ≡ [])
nil_prefix [] q e = (refl, sym e)
nil_prefix (x ∷ p) q e = cc

sub_zero : (n : ℕ) → n - 0 ≡ n
sub_zero n = omega arith

loop_end :
    (rounds want : ℕ) (r : Reader)
    → suc want + length r.conn.incoming ≤ rounds
    → content r ≡ []
    → (r' : Reader) × (read_full_loop rounds (suc want) [] r ≡ some (err r.conn.ended, r'))
loop_end zero want r room nothing_left = absurd (omega arith)
loop_end (suc rounds) want r room nothing_left =
    go (loop_end rounds want) (read_buffered (suc want) r) refl (
      read_buffered-ReadsTo want r.buffered r.conn.incoming r.conn.ended r.conn.outgoing
        r.conn.broken)
  where
    go :
        ((s : Reader)
          → suc want + length s.conn.incoming ≤ rounds
          → content s ≡ []
          → (r' : Reader) × (read_full_loop rounds (suc want) [] s ≡ some (err s.conn.ended, r')))
        → (x : Result Bytes × Reader) → read_buffered (suc want) r ≡ x
        → ReadsTo (suc want) r x
        → (r' : Reader) × (read_full_loop (suc rounds) (suc want) [] r
            ≡ some (err r.conn.ended, r'))
    go ih (err e, s) q (same, _) = (s, loop_err rounds want [] r q ∙ ap (λ y. some (err y, s)) same)
    go ih (ok p, s) q h =
        let (p_nil, rest_nil) = nil_prefix p (content s) (sym nothing_left ∙ h.split) in
        let (r', found) = ih s (omega (arith, h.progress, ap length p_nil)) rest_nil in
        (
          r',
          loop_ok rounds want [] r q
              ∙ ap (λ l. read_full_loop rounds (suc want - length l) l s) p_nil
              ∙ ap (λ k. read_full_loop rounds k [] s) (sub_zero (suc want))
              ∙ found
              ∙ ap (λ y. some (err y, r')) h.ended,
        )
    go ih (panic, s) q h = elim h [ ]

-- With nothing more to come, a read of at least one byte ends by the error that ends the stream.
pub read_full_end :
    (n : ℕ) (r : Reader)
    → content r ≡ []
    → (r' : Reader) × (read_full (suc n) r ≡ (err r.conn.ended, r'))
unfolding read_full
read_full_end n r nothing_left =
    let (r', e) = loop_end (rounds_for (suc n) r) n r (omega arith) nothing_left in
    (r', rw (e) refl)

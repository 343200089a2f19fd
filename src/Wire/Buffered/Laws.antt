-- ===== src/Wire/Buffered/Laws.antt =====
-- One `Read` of a buffered reader, by the bytes that are still to come.
use open_acn.Base.{
  ℕ, suc, ◌+◌, ◌-◌, ◌≤◌, ◌<◌, ◌≡◌, List, [], ◌∷◌, ◌++◌, Option, arith, length, take, drop, flatten,
  Err, Result, ok, err, panic, leb, append-take-drop, length-take-le, if_both, refl, ◌∙◌,
}
use open_acn.Wire.Word.{Bytes}
use open_acn.Wire.Conn.{read, take_first}
use open_acn.Wire.Buffered.{buffer_size, Reader, content, read_buffered}

flatten-take_first :
    (n : ℕ) (seg : Bytes) (rest : List Bytes)
    → flatten (take_first n seg rest) ≡ drop n seg ++ flatten rest
flatten-take_first n seg rest = ground arith

-- A successful read gives a prefix of what was to come, of at most the size asked for, and the
-- reader then holds the rest; it takes a byte or uses up a delivery.
pub record Reads (n : ℕ) (r : Reader) (p : Bytes) (r' : Reader) : Type 0 where
  pub split : content r ≡ p ++ content r'
  pub small : length p ≤ n
  pub progress : n - length p + length r'.conn.incoming < n + length r.conn.incoming
  pub ended : r'.conn.ended ≡ r.conn.ended

abbrev pub ReadsTo : ℕ → Reader → Result Bytes × Reader → Type 0
ReadsTo n r (ok p, r') = Reads n r p r'
ReadsTo n r (err e, r') = (e ≡ r.conn.ended) × (content r ≡ [])
ReadsTo n r (panic, r') = ⊥

-- A reader over a connection, by its parts.
abbrev pub reader : Bytes → List Bytes → Err → Bytes → Option Err → Reader
reader b inc e out broken = record {
  buffered = b;
  conn = record { incoming = inc; ended = e; outgoing = out; broken = broken };
}

length-take_first :
    (n : ℕ) (seg : Bytes) (rest : List Bytes)
    → length (take (suc n) seg) ≤ suc n
    → suc n - length (take (suc n) seg) + length (take_first (suc n) seg rest)
      < suc n + length (seg ∷ rest)
length-take_first n [] rest h = omega arith
length-take_first n (x ∷ seg) rest h = ground arith

module _ (n : ℕ) (e : Err) (out : Bytes) (broken : Option Err) where
  buffered-Reads :
      (x : ℕ) (b : Bytes) (inc : List Bytes)
      → Reads
          (suc n)
          (reader (x ∷ b) inc e out broken)
          (x ∷ take n b)
          (reader (drop n b) inc e out broken)
  buffered-Reads x b inc = record {
    split = append-take-drop (suc n) (x ∷ b) (flatten inc);
    small = omega (arith, length-take-le n b);
    progress = omega (arith, length-take-le n b);
    ended = refl;
  }

  direct-Reads :
      (seg : Bytes) (rest : List Bytes)
      → Reads
          (suc n)
          (reader [] (seg ∷ rest) e out broken)
          (take (suc n) seg)
          (reader [] (take_first (suc n) seg rest) e out broken)
  direct-Reads seg rest = record {
    split = rw flatten-take_first (append-take-drop (suc n) seg (flatten rest));
    small = length-take-le (suc n) seg;
    progress = length-take_first n seg rest (length-take-le (suc n) seg);
    ended = refl;
  }

  -- The buffer has `suc k` places.
  fill-Reads :
      (k : ℕ) (seg : Bytes) (rest : List Bytes)
      → Reads
          (suc n)
          (reader [] (seg ∷ rest) e out broken)
          (take (suc n) (take (suc k) seg))
          (reader (drop (suc n) (take (suc k) seg)) (take_first (suc k) seg rest) e out broken)
  fill-Reads k seg rest = record {
    split =
        append-take-drop (suc k) seg (flatten rest)
        ∙ append-take-drop (suc n) (take (suc k) seg) (drop (suc k) seg ++ flatten rest)
        ∙ rw flatten-take_first;
    small = length-take-le (suc n) (take (suc k) seg);
    progress = fill_progress seg;
    ended = refl;
  }
    where
      fill_progress :
          (seg : Bytes)
          → suc n - length (take (suc n) (take (suc k) seg)) + length (take_first (suc k) seg rest)
            < suc n + length (seg ∷ rest)
      fill_progress [] = omega arith
      fill_progress (x ∷ seg) = ground (arith, length-take-le (suc n) (take (suc k) (x ∷ seg)))

pub read_buffered-ReadsTo :
    (n : ℕ) (b : Bytes) (inc : List Bytes) (e : Err) (out : Bytes) (broken : Option Err)
    → ReadsTo
        (suc n)
        (reader b inc e out broken)
        (read_buffered (suc n) (reader b inc e out broken))
unfolding read_buffered read
read_buffered-ReadsTo n (x ∷ b) inc e out broken = buffered-Reads n e out broken x b inc
read_buffered-ReadsTo n [] [] e out broken =
    if_both (ReadsTo (suc n) (reader [] [] e out broken)) (leb buffer_size (suc n)) _ _ (refl, refl)
      (refl, refl)
read_buffered-ReadsTo n [] (seg ∷ rest) e out broken =
    if_both (ReadsTo (suc n) (reader [] (seg ∷ rest) e out broken)) (leb buffer_size (suc n)) _ _
      (direct-Reads n e out broken seg rest) (fill-Reads n e out broken 4095 seg rest)

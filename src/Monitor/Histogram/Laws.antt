-- ===== src/Monitor/Histogram/Laws.antt =====
-- What a histogram counts.
use open_acn.Base.{
  ℕ, suc, ◌+◌, ◌%◌, ◌^◌, ◌≡◌, refl, ap, ◌∙◌, Bool, true, false, List, [], ◌∷◌, length, replicate,
  ok, arith, if◌then◌else◌,
}
use open_acn.Base.Pure.{◌>>=◌}
use open_acn.Monitor.Gauge.{Float}
use open_acn.Monitor.Histogram.{new_file_histogram, counted, observe_loop, observe, observe_all}

module _ (float : Float) where
  open float use {F, at_most}

  -- How many of the values are at most `b`.
  abbrev pub count_below : F → List F → ℕ
  count_below b [] = 0
  count_below b (v ∷ vs) = (if at_most v b then 1 else 0) + count_below b vs

  -- For each bucket the number of values that are at most its bound, and then the number of values.
  abbrev pub expected : List F → List F → List ℕ
  expected vs [] = length vs % 2 ^ 64 ∷ []
  expected vs (b ∷ bs) = count_below b vs % 2 ^ 64 ∷ expected vs bs

  observe_loop-expected :
      (v : F) (us bs : List F)
      → observe_loop float v bs (expected us bs) ≡ ok (expected (v ∷ us) bs)
  unfolding observe_loop
  observe_loop-expected v us [] = ap (λ n. ok (n ∷ [])) (one_more (length us))
    where
      one_more : (n : ℕ) → (n % 2 ^ 64 + 1) % 2 ^ 64 ≡ suc n % 2 ^ 64
      one_more n = omega arith
  observe_loop-expected v us (b ∷ bs) =
      ap
        (λ r. r >>= λ rest. ok (
          (if at_most v b
            then counted float (count_below b us % 2 ^ 64)
            else count_below b us % 2 ^ 64)
          ∷ rest))
        (observe_loop-expected v us bs)
      ∙ ap (λ n. ok (n ∷ expected (v ∷ us) bs)) (count (at_most v b) (count_below b us))
    where
      count :
          (below : Bool) (n : ℕ)
          → (if below then (n % 2 ^ 64 + 1) % 2 ^ 64 else n % 2 ^ 64)
            ≡ ((if below then 1 else 0) + n) % 2 ^ 64
      count true n = omega arith
      count false n = omega arith

  -- The values in the order in which they were observed, the last one first.
  onto : List F → List F → List F
  onto [] us = us
  onto (v ∷ vs) us = onto vs (v ∷ us)

  observe_all-onto :
      (vs us bs : List F)
      → observe_all float vs (record { buckets = bs; counts = expected us bs })
        ≡ ok (record { buckets = bs; counts = expected (onto vs us) bs })
  unfolding observe_all observe onto
  observe_all-onto [] us bs = refl
  observe_all-onto (v ∷ vs) us bs =
      rw (observe_loop-expected v us bs) (observe_all-onto vs (v ∷ us) bs)

  count_below-onto :
      (b : F) (vs us : List F) → count_below b (onto vs us) ≡ count_below b vs + count_below b us
  unfolding onto
  count_below-onto b [] us = omega arith
  count_below-onto b (v ∷ vs) us = omega (arith, count_below-onto b vs (v ∷ us))

  length-onto : (vs us : List F) → length (onto vs us) ≡ length vs + length us
  unfolding onto
  length-onto [] us = omega arith
  length-onto (v ∷ vs) us = omega (arith, length-onto vs (v ∷ us))

  expected-onto : (vs bs : List F) → expected (onto vs []) bs ≡ expected vs bs
  expected-onto vs [] = ap (λ n. n % 2 ^ 64 ∷ []) (length-onto vs [] ∙ add_zero (length vs))
    where
      add_zero : (n : ℕ) → n + 0 ≡ n
      add_zero n = omega arith
  expected-onto vs (b ∷ bs) =
      ap (λ n. n % 2 ^ 64 ∷ expected (onto vs []) bs)
        (count_below-onto b vs [] ∙ add_zero (count_below b vs))
      ∙ ap (λ l. count_below b vs % 2 ^ 64 ∷ l) (expected-onto vs bs)
    where
      add_zero : (n : ℕ) → n + 0 ≡ n
      add_zero n = omega arith

  no_counts : (bs : List F) → replicate (length bs + 1) 0 ≡ expected [] bs
  no_counts [] = refl
  no_counts (b ∷ bs) =
      ap (λ n. replicate n 0) (one_more (length bs)) ∙ ap (λ l. 0 ∷ l) (no_counts bs)
    where
      one_more : (n : ℕ) → suc n + 1 ≡ suc (n + 1)
      one_more n = omega arith

  -- After any observations, a new histogram has for each bucket the number of values that were at
  -- most its bound, and then the number of all values, as uint64s; no observation panics.
  pub observe_all-new_file_histogram :
      (vs bs : List F)
      → observe_all float vs (new_file_histogram float bs)
        ≡ ok (record { buckets = bs; counts = expected vs bs })
  unfolding new_file_histogram
  observe_all-new_file_histogram vs bs =
      ap (λ ns. observe_all float vs (record { buckets = bs; counts = ns })) (no_counts bs)
      ∙ observe_all-onto vs [] bs
      ∙ ap (λ ns. ok (record { buckets = bs; counts = ns })) (expected-onto vs bs)

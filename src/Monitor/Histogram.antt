-- ===== src/Monitor/Histogram.antt =====
-- Histograms of dht/monitoring/file.go.
pub mod Laws
use open_acn.Base.{
  ℕ, ◌+◌, ◌%◌, ◌^◌, Bool, true, false, List, [], ◌∷◌, length, replicate, Result, ok, err, panic,
  if◌then◌else◌,
}
use open_acn.Base.Pure.{◌>>=◌}
use open_acn.Monitor.Gauge.{Float}

module _ (float : Float) where
  open float use {F, at_most}

  pub record FileHistogram : Type 0 where
    pub buckets : List F
    pub counts : List ℕ

  unfoldable pub new_file_histogram : List F → FileHistogram
  new_file_histogram buckets = record {
    buckets = buckets;
    counts = replicate (length buckets + 1) 0;
  }

  -- `counts[i] += 1` on a uint64
  abbrev pub counted : ℕ → ℕ
  counted n = (n + 1) % 2 ^ 64

  -- The loop over the buckets, and the count behind it; it panics where there are too few counts.
  unfoldable pub observe_loop : F → List F → List ℕ → Result (List ℕ)
  observe_loop value buckets [] = panic
  observe_loop value [] (n ∷ counts) = ok (counted n ∷ counts)
  observe_loop value (b ∷ buckets) (n ∷ counts) = do
    rest ← observe_loop value buckets counts
    ok ((if at_most value b then counted n else n) ∷ rest)

  unfoldable pub observe : F → FileHistogram → Result FileHistogram
  unfolding observe_loop
  observe value h = do
    counts ← observe_loop value h.buckets h.counts
    ok (record h { counts = counts })

  -- One observation after the other.
  unfoldable pub observe_all : List F → FileHistogram → Result FileHistogram
  observe_all [] h = ok h
  observe_all (value ∷ values) h = do g ← observe value h; observe_all values g

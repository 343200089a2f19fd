-- ===== src/Tests/MonitorExamples.antt =====
-- A histogram of naturals, and the metrics of a service.
use open_acn.Base.{ℕ, ◌+◌, ◌-◌, ◌≡◌, refl, Bool, true, false, [], ◌∷◌, ok, panic, leb}
use open_acn.Base.GoMap.{lookup, insert, delete}
use open_acn.Monitor.Gauge.{Float, allocate, read_cell}
use open_acn.Monitor.Histogram.{new_file_histogram, observe_all}
use open_acn.Monitor.Histogram.Laws.{observe_all-new_file_histogram}
use open_acn.Monitor.File.{
  FileMonitoring, new_file_monitoring, new_gauge, get_stats, stat_lines, start, stop,
}
use open_acn.Monitor.Timer.{new_timer_named, get_timer_named}

abbrev naturals : Float
naturals = record {
  F = ℕ;
  zero_value = 0;
  one = 1;
  plus = ◌+◌;
  minus = ◌-◌;
  at_most = leb;
  format = λ n. "0";
}

observe_all-new_file_histogram_example :
    observe_all naturals (3 ∷ 9 ∷ 1 ∷ []) (new_file_histogram naturals (2 ∷ 5 ∷ []))
    ≡ ok (record { buckets = 2 ∷ 5 ∷ []; counts = 1 ∷ 2 ∷ 3 ∷ [] })
observe_all-new_file_histogram_example =
    observe_all-new_file_histogram naturals (3 ∷ 9 ∷ 1 ∷ []) (2 ∷ 5 ∷ [])

abbrev service : Bool → FileMonitoring naturals
service write = new_file_monitoring naturals "/tmp" "acn" write

-- A service that does not write its file has no channel for `Stop` to close.
stop-start_example : stop naturals (start naturals (service false)).1 ≡ (panic, service false)
unfolding stop start
stop-start_example = refl

stats_example : get_stats naturals (new_gauge naturals "peers" (service true)).1 ≡ "acn_peers 0\n"
unfolding get_stats new_gauge allocate stat_lines read_cell insert
stats_example = refl

timer_example : (get_timer_named 9 "t" (new_timer_named 4 "t" []).1).1 ≡ []
unfolding get_timer_named new_timer_named lookup insert delete
timer_example = refl

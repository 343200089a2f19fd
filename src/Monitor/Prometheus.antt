-- ===== src/Monitor/Prometheus.antt =====
-- `PrometheusMonitoring` of dht/monitoring/prometheus.go, over the library that makes its metrics.
use open_acn.Base.{
  String, ℕ, Bool, true, false, Option, none, some, List, [], ◌∷◌, ok, panic, Exec, ◌≡◌, refl,
  if◌then◌else◌,
}
use open_acn.Base.GoMap.{GoMap, lookup, insert}
use open_acn.Acn.Message.{◌+ˢ◌}
use open_acn.Monitor.Timer.{NamedTimers}

-- `promauto`, which gives no metric where it panics: of a namespace, a name and a help text, and of the
-- metrics that were made before.
pub record Metrics : Type 1 where
  pub Counter : Type 0
  pub Gauge : Type 0
  pub Histogram : Type 0
  pub Bucket : Type 0
  pub counter_opts : List String → String → String → String → Option Counter
  pub gauge_opts : List String → String → String → String → Option Gauge
  pub histogram_opts : List String → String → String → String → List Bucket → Option Histogram
  pub decimal : ℕ → String

module _ (lib : Metrics) where
  open lib use {
    Counter, Gauge, Histogram, Bucket, counter_opts, gauge_opts, histogram_opts, decimal,
  }

  -- `registered` is what the library has made; `serving` is whether the server listens.
  pub record PrometheusMonitoring : Type 0 where
    pub namespace : String
    pub port : ℕ
    pub running : Bool
    pub serving : Bool
    pub registered : List String
    pub counter_dict : GoMap Counter
    pub gauge_dict : GoMap Gauge
    pub histo_dict : GoMap Histogram
    pub timer : NamedTimers

  abbrev pub new_prometheus_monitoring : String → ℕ → List String → PrometheusMonitoring
  new_prometheus_monitoring namespace port registered = record {
    namespace = namespace;
    port = port;
    running = false;
    serving = false;
    registered = registered;
    counter_dict = [];
    gauge_dict = [];
    histo_dict = [];
    timer = [];
  }

  abbrev made_counter : String → Option Counter → Exec PrometheusMonitoring Counter
  made_counter name none s = (panic, s)
  made_counter name (some c) s = (
    ok c,
    record s { registered = name ∷ s.registered; counter_dict = insert name c s.counter_dict },
  )

  unfoldable pub new_counter : String → String → Exec PrometheusMonitoring Counter
  new_counter name description s =
      made_counter name (counter_opts s.registered s.namespace name description) s

  abbrev pub get_counter : String → PrometheusMonitoring → Option Counter
  get_counter name s = lookup name s.counter_dict

  abbrev made_gauge : String → Option Gauge → Exec PrometheusMonitoring Gauge
  made_gauge name none s = (panic, s)
  made_gauge name (some g) s =
      (ok g, record s { registered = name ∷ s.registered; gauge_dict = insert name g s.gauge_dict })

  unfoldable pub new_gauge : String → String → Exec PrometheusMonitoring Gauge
  new_gauge name description s =
      made_gauge name (gauge_opts s.registered s.namespace name description) s

  abbrev pub get_gauge : String → PrometheusMonitoring → Option Gauge
  get_gauge name s = lookup name s.gauge_dict

  abbrev made_histogram : String → Option Histogram → Exec PrometheusMonitoring Histogram
  made_histogram name none s = (panic, s)
  made_histogram name (some h) s =
      (ok h, record s { registered = name ∷ s.registered; histo_dict = insert name h s.histo_dict })

  unfoldable pub new_histogram : String → String → List Bucket → Exec PrometheusMonitoring Histogram
  new_histogram name description buckets s =
      made_histogram name (histogram_opts s.registered s.namespace name description buckets) s

  abbrev pub get_histogram : String → PrometheusMonitoring → Option Histogram
  get_histogram name s = lookup name s.histo_dict

  -- `Start` where the port is free, up to the server, which then listens until it is closed.
  unfoldable pub start : PrometheusMonitoring → PrometheusMonitoring
  start s = if s.running then s else record s { running = true; serving = true }

  unfoldable pub stop : PrometheusMonitoring → PrometheusMonitoring
  stop s = record s { serving = false }

  abbrev pub info : PrometheusMonitoring → String
  info s = "Prometheus at " +ˢ decimal s.port

  -- A service that was started and stopped is not started again.
  start-stop : (s : PrometheusMonitoring) → s.running ≡ true → start (stop s) ≡ stop s
  unfolding start stop
  start-stop s h = rw (h) refl

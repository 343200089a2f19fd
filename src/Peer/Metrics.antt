-- ===== src/Peer/Metrics.antt =====
-- `MonitoringService` of dht/monitoring/service.go, its two implementations, and the metrics that a peer
-- makes in `setupMonitoring` and `addMonitoringMetrics` and its handlers ask for (dht/dhtpeer/dhtpeer.go).
use open_acn.Base.{
  String, ℕ, true, false, List, [], ◌∷◌, Result, ok, err, panic, Exec, pure, ◌>>=◌, ◌>>◌,
  if◌then◌else◌, ◌==◌, ◌≡◌, refl, All,
}
use open_acn.Base.GoMap.{has, lookup, insert}
use open_acn.Acn.Protocol.{ignore}
use open_acn.Monitor.Gauge.{Float}
use open_acn.Monitor.File
use open_acn.Monitor.File.{FileMonitoring, new_file_monitoring}
use open_acn.Monitor.Prometheus
use open_acn.Monitor.Prometheus.{Metrics, PrometheusMonitoring, new_prometheus_monitoring}

-- The operations that make metrics, with their names, help texts and buckets.
pub record MonitoringService (F M : Type 0) : Type 0 where
  pub new_counter : String → String → Exec M (Unit {0})
  pub new_gauge : String → String → Exec M (Unit {0})
  pub new_histogram : String → String → List F → Exec M (Unit {0})

abbrev pub file_service : (float : Float) → MonitoringService float.F (FileMonitoring float)
file_service float = record {
  new_counter = λ name description. File.new_counter float name >>= λ _. pure tt;
  new_gauge = λ name description. File.new_gauge float name >>= λ _. pure tt;
  new_histogram =
      λ name description buckets. File.new_histogram float name buckets >>= λ _. pure tt;
}

abbrev pub prometheus_service :
    (lib : Metrics) → MonitoringService lib.Bucket (PrometheusMonitoring lib)
prometheus_service lib = record {
  new_counter = λ name description. Prometheus.new_counter lib name description >>= λ _. pure tt;
  new_gauge = λ name description. Prometheus.new_gauge lib name description >>= λ _. pure tt;
  new_histogram = λ name description buckets.
      Prometheus.new_histogram lib name description buckets >>= λ _. pure tt;
}

-- The names of the metrics.
abbrev pub gauge_names : List String
gauge_names = "op_route_count" ∷ "service_delegate_clients_count" ∷ []

abbrev pub counter_names : List String
counter_names =
    "op_route_count_all" ∷ "op_route_count_success" ∷ "service_delegate_clients_count_all"
    ∷ "service_relay_clients_count_all" ∷ []

abbrev pub histogram_names : List String
histogram_names =
    "dht_op_latency_store" ∷ "dht_op_latency_lookup" ∷ "op_latency_register" ∷ "op_latency_route"
    ∷ []

module _ {F M : Type 0} (monitor : MonitoringService F M) (buckets : List F) where
  abbrev pub primitive_metrics : Exec M (Unit {0})
  primitive_metrics = do
    ignore (
        monitor.new_histogram "dht_op_latency_store" "Histogram for time to store a key in the DHT"
          buckets)
    ignore (
        monitor.new_histogram "dht_op_latency_lookup" "Histogram for time to find a key in the DHT"
          buckets)

  abbrev pub service_metrics : Exec M (Unit {0})
  service_metrics = do
    ignore (
        monitor.new_histogram "op_latency_register"
          "Histogram for end-to-end time to register an agent in the acn" buckets)
    ignore (
        monitor.new_histogram "op_latency_route"
          "Histogram for end-to-end time to route an envelope to its destination, excluding time to send envelope itself"
          buckets)
    ignore (monitor.new_gauge "op_route_count" "Number of ongoing envelope routing requests")
    ignore (
        monitor.new_counter "op_route_count_all"
          "Total number envelope routing requests, successful or not")
    ignore
        (monitor.new_counter "op_route_count_success" "Total number envelope routed successfully")

  abbrev pub client_metrics : Exec M (Unit {0})
  client_metrics = do
    ignore
        (monitor.new_gauge "service_delegate_clients_count" "Number of active delagate connections")
    ignore (
        monitor.new_counter "service_delegate_clients_count_all"
          "Number of all delagate clients, connected or disconnected")
    ignore (monitor.new_gauge "service_relay_clients_count" "Number of active relay clients")
    ignore (
        monitor.new_counter "service_relay_clients_count_all"
          "Total number of all relayed clients, connected or disconnected")

  unfoldable pub add_monitoring_metrics : Exec M (Unit {0})
  add_monitoring_metrics = primitive_metrics >> service_metrics >> client_metrics

-- The service of a peer.
pub data Monitor (float : Float) (lib : Metrics) : Type 0 where
  file_monitor : FileMonitoring float → Monitor float lib
  prometheus_monitor : PrometheusMonitoring lib → Monitor float lib

module _ (float : Float) (lib : Metrics) (cwd : String) (registered : List String) where
  abbrev as_file : Result (Unit {0}) × FileMonitoring float → Result (Monitor float lib)
  as_file (ok _, s) = ok (file_monitor s)
  as_file (err e, s) = err e
  as_file (panic, s) = panic

  abbrev as_prometheus : Result (Unit {0}) × PrometheusMonitoring lib → Result (Monitor float lib)
  as_prometheus (ok _, s) = ok (prometheus_monitor s)
  as_prometheus (err e, s) = err e
  as_prometheus (panic, s) = panic

  abbrev pub file_metrics : List float.F → Result (Unit {0}) × FileMonitoring float
  file_metrics buckets =
      add_monitoring_metrics (file_service float) buckets
        (new_file_monitoring float cwd "acn" false)

  -- The buckets of the latencies are `latencyBucketsMicroSeconds`.
  unfoldable pub setup_monitoring : ℕ → List float.F → List lib.Bucket → Result (Monitor float lib)
  unfolding add_monitoring_metrics
  setup_monitoring port buckets lib_buckets =
      if port == 0
      then as_file (file_metrics buckets)
      else as_prometheus (
          add_monitoring_metrics (prometheus_service lib) lib_buckets
            (new_prometheus_monitoring lib "acn" port registered))

  -- Every metric that a handler asks for is there, and so is not nil.
  record HasMetrics (s : FileMonitoring float) : Type 0 where
    gauges : All (λ name. has name s.gauge_dict ≡ true) gauge_names
    counters : All (λ name. has name s.counter_dict ≡ true) counter_names
    histograms : All (λ name. has name s.histo_dict ≡ true) histogram_names

  -- A peer without a monitoring port sets up a file service without a panic, in which every gauge,
  -- counter and histogram is found that its handlers ask for.
  setup_monitoring-HasMetrics :
      (buckets : List float.F) (lib_buckets : List lib.Bucket)
      → (setup_monitoring 0 buckets lib_buckets ≡ ok (file_monitor (file_metrics buckets).1))
        × HasMetrics (file_metrics buckets).1
  unfolding setup_monitoring add_monitoring_metrics File.new_histogram File.new_gauge
      File.new_counter has lookup insert
  setup_monitoring-HasMetrics buckets lib_buckets = (
    refl,
    record {
      gauges = (refl, (refl, tt));
      counters = (refl, (refl, (refl, (refl, tt))));
      histograms = (refl, (refl, (refl, (refl, tt))));
    },
  )

-- ===== src/Monitor.antt =====
-- The metrics of dht/monitoring/file.go and prometheus.go, and the timers of dht/monitoring/service.go.
pub mod Gauge
pub mod Histogram
pub mod File
pub mod Timer
pub mod Prometheus

-- ===== src/Monitor.antt =====
-- docker/home-service-monitor/monitor.py: the exporter that polls the services of the home and shows
-- what it found as metrics.
pub mod Metrics
pub mod Scan
pub mod Pages
pub mod Recorder
pub mod Pbs
pub mod Retry
pub mod Kubernetes
pub mod Network
pub mod Nas
pub mod Services
pub mod Poll
pub mod Netlink

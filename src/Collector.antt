-- ===== src/Collector.antt =====
-- tms/collector: what the poller makes of the answers of a cluster.
pub mod ResourceGroups

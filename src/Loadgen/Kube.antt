-- ===== src/Loadgen/Kube.antt =====
-- internal/loadgen/kube.go: the rate limiter's lifecycle on its cluster.
pub mod Objects
pub mod Client
pub mod Poll
pub mod Lifecycle
pub mod Reached
pub mod Simulated

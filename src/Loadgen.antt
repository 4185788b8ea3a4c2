-- ===== src/Loadgen.antt =====
-- internal/loadgen: the load generator.
pub mod Driver
pub mod Pacer
pub mod Rates
pub mod Report
pub mod Kube
pub mod Scenarios
pub mod Server
mod Examples

-- ===== src/Tests.antt =====
-- The theorems at concrete inputs.
pub mod Served
pub mod Results
pub mod Parsing
pub mod Texts
pub mod Serving
pub mod Pools
pub mod Sessions
pub mod Bodies
pub mod Connections
pub mod Configs
pub mod Guards
pub mod Secure
pub mod Clients
pub mod Logs

-- ===== src/Examples.antt =====
-- Small inputs, tests on them, and instances of the theorems.
pub mod Data
pub mod Status
pub mod Naming
pub mod Users
pub mod Stats
pub mod Store
pub mod Jobs
pub mod Branch
pub mod Gc
pub mod Daemon
pub mod Files
pub mod Cgi
pub mod System
pub mod CiStatus
pub mod Rm
pub mod Fetcher

-- ===== src/Tests.antt =====
-- The theorems at concrete inputs, over the sample library of `Json/Sample.antt`.
pub mod Data
pub mod Hosts
pub mod Rates
pub mod Groups
pub mod Viewer
pub mod Collector
pub mod Screens
pub mod Programs
pub mod Machines
pub mod Chains
pub mod Copies
pub mod Shared
pub mod Jobs
pub mod Rounds

-- ===== src/Tests.antt =====
-- The theorems at concrete inputs, each part's in a module of its own.
pub mod Calls
pub mod Boundary
pub mod Cluster
pub mod Publishers
pub mod Reports
pub mod Masters
pub mod Mocks
pub mod Rabbits
pub mod Marathons
pub mod Rounds

-- ===== src/Tsdb.antt =====
-- The time series database (haysel/src/tsdb3).
pub mod Time
pub mod Channel
pub mod Query
pub mod Access
pub mod Layouts
pub mod Alloc
pub mod Database
pub mod Bus
mod Tests

-- ===== src/Mining.antt =====
-- repogauge/mining
pub mod Pattern
pub mod Reject
pub mod Signals
pub mod Score
mod Examples

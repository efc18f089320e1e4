-- ===== src/Runner.antt =====
-- repogauge/runner
pub mod Planner
pub mod Analysis
pub mod Judge
pub mod Router
pub mod Pricing
pub mod NormalizePatch
pub mod Scheduler

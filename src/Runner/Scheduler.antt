-- ===== src/Runner/Scheduler.antt =====
-- repogauge/runner/scheduler.py
pub mod State
pub mod AttemptId
pub mod Attempt
pub mod Job
pub mod Guards
pub mod RateLimit
mod Examples

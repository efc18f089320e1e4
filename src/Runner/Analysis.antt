-- ===== src/Runner/Analysis.antt =====
-- repogauge/runner/analyze.py: the solver summaries, and the tables that compare them.
pub mod Predictions
pub mod Summary
pub mod Budget
pub mod Pareto
pub mod Failure
pub mod Metrics
pub mod Resolution
mod Examples

-- ===== src/Runner/Judge.antt =====
-- repogauge/runner/judge.py: the batches of predictions, their results, and the rows of an evaluation.
pub mod Rows
pub mod Batches
pub mod Evaluation
pub mod Artifacts
mod Examples

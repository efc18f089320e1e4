-- ===== src/Validation.antt =====
-- repogauge/validation
pub mod Outcomes
pub mod Evidence
pub mod Inputs
pub mod RunTest
pub mod Pass
pub mod Verdict
pub mod Row
pub mod Instance
mod Examples

-- ===== src/Runner/Router.antt =====
-- repogauge/runner/router.py: the rows that a router is trained on, its labels, the tree, the model.
pub mod Labels
pub mod Model
pub mod Partition
pub mod Tree
pub mod Aggregate
pub mod Policies
mod Examples

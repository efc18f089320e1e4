-- ===== src/Export.antt =====
-- repogauge/export
pub mod Shlex
pub mod SplitPatch

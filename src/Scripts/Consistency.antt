-- ===== src/Scripts/Consistency.antt =====
-- scripts/experiment4/plot_consistency.py. pandas hands over the rows of the metrics file.
pub mod Summary
pub mod Draw
pub mod Verdict

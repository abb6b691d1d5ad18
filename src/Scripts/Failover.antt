-- ===== src/Scripts/Failover.antt =====
-- scripts/experiment3/plot_failover.py. pandas hands over the rows of the metrics file.
pub mod Stats
pub mod Draw
pub mod Order

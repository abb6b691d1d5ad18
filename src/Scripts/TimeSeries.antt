-- ===== src/Scripts/TimeSeries.antt =====
-- scripts/experiment2/plot_timeseries.py.
pub mod Load
pub mod Bins
pub mod Draw
pub mod Cover
pub mod Aligned

-- ===== src/Scripts/Bars.antt =====
-- The two scripts of experiment 2 that draw fixed results.
pub mod LoadTest
pub mod Bottleneck

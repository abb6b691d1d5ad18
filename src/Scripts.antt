-- ===== src/Scripts.antt =====
-- scripts/: the Python programs that turn the measurements of the experiments into figures.
pub mod Python
pub mod Figure
pub mod Points
pub mod Consistency
pub mod Failover
pub mod TimeSeries
pub mod Bars
pub mod Gateways
pub mod Deck
pub mod LoadTests
mod Sim
mod Tests

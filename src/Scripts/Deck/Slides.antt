-- ===== src/Scripts/Deck/Slides.antt =====
-- The slides of scripts/generate_ppt.py, and the presentation.
pub mod Title
pub mod Architecture
pub mod Scaling
pub mod Bottleneck
pub mod Failover
pub mod Consistency
pub mod Cloud
pub mod DataPlane
pub mod Demo
pub mod Conclusion

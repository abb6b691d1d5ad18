-- ===== src/Scripts/Deck.antt =====
-- scripts/generate_ppt.py: the slides of a presentation about the project.
pub mod Pptx
pub mod Rows
pub mod Charts
pub mod Slides
pub mod Whole
pub mod Layout
mod Tests

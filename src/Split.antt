-- ===== src/Split.antt =====
-- The structural splitter (src/engrava/extensions/structural_split.py).
pub mod Defs
pub mod Windows
pub mod Words
pub mod Paragraphs
pub mod Trimmed
pub mod Lossless
mod Tests

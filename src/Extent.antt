-- ===== src/Extent.antt =====
-- The valid-time extent of a reflection (src/engrava/extensions/dreaming_reflection_extent.py).
pub mod Defs
pub mod Hull
mod Tests

-- ===== src/Journal.antt =====
-- The hash-linked mutation journal (src/engrava/infrastructure/sqlite/journal_writer.py).
pub mod Table
pub mod Defs
pub mod Chain
pub mod Append
pub mod Preimage
pub mod Tamper
mod Tests

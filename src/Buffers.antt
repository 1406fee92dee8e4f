-- ===== src/Buffers.antt =====
-- The in-process telemetry buffers (src/engrava/infrastructure/sqlite/engrava_core.py).
pub mod Access
pub mod Counted
pub mod Latency
mod Tests

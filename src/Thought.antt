-- ===== src/Thought.antt =====
-- The core record of the thought graph (src/engrava/domain/models/thought.py) and its enumerations
-- (src/engrava/domain/enums.py).
pub mod Defs
pub mod Lifecycle
mod Tests

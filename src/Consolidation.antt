-- ===== src/Consolidation.antt =====
-- The consolidation runs of the dreaming extension (src/engrava/extensions/dreaming.py).
pub mod Promote
pub mod Promoted
pub mod Clusters
pub mod Labels
pub mod Keys
pub mod Near
pub mod Lpa
mod Tests

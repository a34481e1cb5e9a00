-- ===== src/Blockade.antt =====
-- The blockade moderator: rmf_traffic/src/rmf_traffic/blockade.
pub mod Range
pub mod Timeline
pub mod Constraint
pub mod Conflicts
pub mod Gridlock
pub mod Moderator
pub mod Participant
mod Tests

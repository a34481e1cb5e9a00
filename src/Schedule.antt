-- ===== src/Schedule.antt =====
-- The traffic schedule: rmf_traffic/src/rmf_traffic/schedule.
pub mod Tracker
pub mod Delivery
pub mod Entry
pub mod Database
pub mod Patch
pub mod Mirror
pub mod Progress
pub mod Dependencies
pub mod Participant
mod Tests
mod StoreTests
mod ParticipantTests

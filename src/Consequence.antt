-- ===== src/Consequence.antt =====
-- The relationship-consequence journal and the tensions projected from it:
-- erii/models/consequence.py and erii/core/consequence.py.
pub mod Types
pub mod Validate
pub mod Project
pub mod Spec
pub mod Rounds
pub mod Normal
pub mod Built
pub mod Refines
pub mod Sources
pub mod Gate
pub mod Journal
pub mod Coordinator
pub mod Tests
pub mod Replay
pub mod Consistent

-- ===== src/Engine.antt =====
-- The game engine (packages/game-engine/src): what decides a round, with no state of its own.
pub mod Draw
pub mod EntriesHash
pub mod Machine
pub mod Proof
pub mod Ranges
pub mod SpinAngle

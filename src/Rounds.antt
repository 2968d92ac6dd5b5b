-- ===== src/Rounds.antt =====
-- The rounds of a room (apps/api/src/modules/rounds).
pub mod Advance
pub mod Assigned
pub mod Cancel
pub mod Cancellation
pub mod Draw
pub mod Drawable
pub mod History
pub mod Honest
pub mod HistoryMoney
pub mod Kept
pub mod KeptCancel
pub mod KeptEnds
pub mod KeptSteps
pub mod KeptTx
pub mod LifeTests
pub mod Lock
pub mod Open
pub mod LockOutcome
pub mod Payout
pub mod Phase
pub mod Published
pub mod Requests
pub mod Rows
pub mod Settle
pub mod Tests
pub mod Tickets
pub mod Tiling

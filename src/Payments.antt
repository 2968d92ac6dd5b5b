-- ===== src/Payments.antt =====
-- Payments: the withdrawals of players (apps/api/src/modules/payments).
pub mod Final
pub mod Frame
pub mod Kept
pub mod Late
pub mod Opening
pub mod Request
pub mod Requests
pub mod Rules
pub mod Served
pub mod Review
pub mod Tests
pub mod Transition
pub mod Webhook
pub mod Withdrawals

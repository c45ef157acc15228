-- ===== src/Lir.antt =====
-- The target-independent IR: internal/concept/lir*.go.
pub mod Types
pub mod Function
pub mod Dominators
pub mod Borrow
pub mod Body
pub mod Frame
pub mod Aggregate
pub mod Effects
pub mod Activation
mod Tests

-- ===== src/Bounds.antt =====
-- Local bounds: the interval analysis that removes bounds checks, internal/concept/local_bounds.go.
pub mod Domain
pub mod Syntax
pub mod Analysis
pub mod Run
pub mod Arithmetic
pub mod Sound
pub mod Truth
pub mod Value
pub mod Meets
pub mod Assume
pub mod Condition
pub mod Join
pub mod Visit
pub mod Access
pub mod Branches
pub mod Operands
pub mod Checks
pub mod Defined
pub mod Forget
pub mod Writes
mod Tests

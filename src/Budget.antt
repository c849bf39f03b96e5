-- ===== src/Budget.antt =====
-- The budgets of workers: cli/core/queries/budget/ and cli/core/budget/.
pub mod Tables
pub mod Action
pub mod Writes
pub mod Checks
pub mod Service
pub mod Enforcer
pub mod Current
pub mod Rows
pub mod After
pub mod Pools
pub mod Sound
pub mod Steps
pub mod Approval
pub mod Totals
pub mod Moves
pub mod Delegate
pub mod Allocate
pub mod Spend
pub mod Refunds
pub mod Revoke
pub mod Fund
pub mod Run
pub mod Partial
pub mod Completion
mod Examples

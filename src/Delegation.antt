-- ===== src/Delegation.antt =====
-- Delegated hiring authority: cli/core/queries/delegation.py, delegate_authority of
-- cli/core/worker/delegation.py, and can_hire of cli/core/worker/hiring.py.
pub mod Grants
pub mod Cycles
pub mod Revoke
pub mod Subtree
pub mod Search
pub mod Check
pub mod Expiry
pub mod Conflicts
pub mod Cascade
pub mod Authority
pub mod Bounds
pub mod Versions
pub mod Hiring
pub mod Lapse
mod Examples

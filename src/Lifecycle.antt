-- ===== src/Lifecycle.antt =====
-- The life of a bead: cli/core/lifecycle.py, the tables LIFECYCLE_STATES and
-- LIFECYCLE_INITIAL_STATES of cli/core/constants/beads.py, and the check that cli/core/bd_wrapper.py
-- makes before it runs `bd update` and `bd close`.
pub mod Config
pub mod Validate
pub mod Wrapper
pub mod Saved
pub mod Walks
pub mod Commands
pub mod Spelling
mod Examples

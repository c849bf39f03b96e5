-- ===== src/Rules.antt =====
-- The rules of the board: cli/core/rules/.
pub mod Types
pub mod Engine
pub mod Index
pub mod Match
pub mod Allow
mod Examples

-- ===== src/Escalation.antt =====
-- How a worker's problem finds someone who resolves it: shared/escalation/ and shared/org/.
pub mod Interface
pub mod Topology
pub mod Loader
pub mod Router
pub mod Board
pub mod Org
pub mod Managers
pub mod Paths
pub mod Routes
pub mod Resolution
mod Examples

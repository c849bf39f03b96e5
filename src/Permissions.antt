-- ===== src/Permissions.antt =====
-- The permissions of workers: the tables of cli/core/db/schema.py, cli/core/queries/permission.py, and
-- the levels on channels and beads of cli/core/permissions/access_control.py. A level is its number,
-- from 0 for NONE to 5 for ADMIN.
pub mod Tables
pub mod Access
pub mod Grants
pub mod Sources
mod Examples

-- ===== src/Cmdb.antt =====
-- The CMDB client, internal/cmdb.
pub mod Types
pub mod Keys
pub mod Matched
pub mod Jql
pub mod Reference
pub mod Queue
pub mod Systems
pub mod Departments
pub mod Settings
pub mod Policy

-- ===== src/Sync.antt =====
-- The synchronization of internal/secarch/ticket_sync.go.
pub mod World
pub mod Isolate
pub mod Repairs
pub mod Tracked
pub mod Departments
pub mod Run

-- ===== src/Models.antt =====
-- internal/models: roles, JSON content, block type schemas and what is done with content.
pub mod Roles
pub mod Settings
pub mod Json
pub mod Schema
pub mod Content
pub mod Media
pub mod Snapshot
pub mod Tests

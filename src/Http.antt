-- ===== src/Http.antt =====
-- internal/httpapi: the REST handlers, as functions on the database.
pub mod Reply
pub mod Text
pub mod Access
pub mod Pages
pub mod SectionTypes
pub mod Sections
pub mod Tenants
pub mod Members
pub mod Websites
pub mod Routes
pub mod AdminRoutes
pub mod Invariant
pub mod Isolation
pub mod Staff
pub mod Fixtures
pub mod Tests

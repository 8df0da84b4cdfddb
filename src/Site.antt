-- ===== src/Site.antt =====
-- internal/generator and internal/publish/snapshot.go: from the tables to the files of a site.
pub mod Links
pub mod Blocks
pub mod Generate
pub mod Paths
pub mod Files
pub mod Complete
pub mod Snapshot
pub mod Listed
pub mod Referred
pub mod Published
pub mod Shown
pub mod Pictures
pub mod Tests

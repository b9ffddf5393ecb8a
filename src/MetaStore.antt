-- ===== src/MetaStore.antt =====
-- internal/store/meta.go: bucket names and object versions.
pub mod Versions
pub mod Ops
pub mod Numbering
pub mod Lookups
pub mod Invariant
pub mod Reach
pub mod Behaviour
pub mod Listing
pub mod Pages
pub mod Paging
pub mod Listed
pub mod VersionRows
pub mod Rows
pub mod ListedVersions
pub mod Snapshot
pub mod Rebuilt
pub mod Reopen
pub mod Contents
pub mod Spec
pub mod Promised
pub mod Commands
pub mod PromisedReads

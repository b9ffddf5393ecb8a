-- ===== src/Store.antt =====
-- internal/store/store.go and internal/store/multipart.go: the storage engine.
pub mod State
pub mod Open
pub mod Objects
pub mod Blobs
pub mod Deletes
pub mod Shared
pub mod VersionBlobs
pub mod Intact
pub mod Multipart
pub mod Reach

-- ===== src/Store/Multipart.antt =====
-- internal/store/multipart.go: uploads in parts. The uploads are in memory, the parts in files.
pub mod Uploads
pub mod Complete
pub mod Lists
pub mod Steps
pub mod Paths
pub mod Parts
pub mod Completion
pub mod Reaper
pub mod Failure
pub mod Cases
pub mod Intact
pub mod Stored
pub mod Kept
pub mod Registered
pub mod Sequence
pub mod Interleaved
pub mod Numbers

-- ===== src/Api.antt =====
-- internal/api: the S3 interface over HTTP.
pub mod Http
pub mod Errors
pub mod SigV4
pub mod Buckets
pub mod Objects
pub mod Uploads
pub mod Join
pub mod Route
pub mod Access
pub mod Bounds
pub mod Numbers
pub mod Stored
pub mod Replies

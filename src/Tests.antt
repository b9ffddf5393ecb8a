-- ===== src/Tests.antt =====
-- Each theorem at a concrete input, and runs of the operations.
mod Data
mod Metadata
mod Replication
mod Engine
mod Uploads
mod Requests
mod Start
mod Restart
mod Joining
mod Blobs
mod Parts
mod Promises

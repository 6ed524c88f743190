-- ===== src/Repository.antt =====
-- internal/repository/repository.go: downloads, segments, queues and statistics in BadgerDB, with
-- secondary indexes for downloads.
pub mod Keys
pub mod Downloads
pub mod Indexed
pub mod Upkeep
pub mod Invariant
pub mod Deletion
pub mod Reads
pub mod Listing
pub mod Frame
pub mod Bulk
pub mod Segments
pub mod Queues
pub mod Sample
mod Tests

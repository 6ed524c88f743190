-- ===== src/Repository/Bulk.antt =====
-- The methods of repository.go on many downloads.
pub mod Batch
pub mod Writes
pub mod ByQueue
pub mod Create
pub mod Reach

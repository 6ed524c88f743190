-- ===== src/Service.antt =====
-- internal/service: the download service, the queue service and the worker loop.
pub mod State
pub mod Tags
pub mod Downloads
pub mod Indexes
pub mod Updated
pub mod Status
pub mod Runs
pub mod Enqueue
pub mod Queues
pub mod Workers
pub mod Calls
pub mod Orphans
mod Tests

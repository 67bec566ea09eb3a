-- ===== src/Jobs.antt =====
-- internal/core/jobs: the background jobs, their queue in the database and the worker that runs them.
pub mod Queue
pub mod Enqueue
pub mod Answers
pub mod Soundness
pub mod Leases
pub mod Claims
pub mod Endings
pub mod History
pub mod Worker
pub mod Retry
pub mod Rounds
mod Samples

-- ===== src/ExportJobs.antt =====
-- internal/features/exports: the requests for exports, the worker that makes their results, and the
-- removal of the results that have expired.
pub mod Domain
pub mod Store
pub mod Requests
pub mod Steps
pub mod Generator
pub mod Cleanup
pub mod Keys
pub mod Rows
pub mod Kept
pub mod Marks
pub mod Changes
pub mod Completions
pub mod Safety
pub mod Generation
pub mod Removal
pub mod Candidates
pub mod Asking
pub mod History
pub mod Endings
pub mod Attempts
pub mod Finality
pub mod Promises
mod Samples

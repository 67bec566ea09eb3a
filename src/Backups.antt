-- ===== src/Backups.antt =====
-- internal/features/exports/restore: the checks of a backup, and its restoration.
pub mod Manifest
pub mod Graph
pub mod Order
pub mod Kahn
pub mod Numbering
pub mod Search
pub mod Validity
pub mod Paths
pub mod Parts
pub mod PathSafety
pub mod Files
pub mod Zip
pub mod Reading
pub mod Contents
pub mod Restorable
pub mod Soundness
pub mod RowChecks
pub mod Checks
pub mod Restorer
pub mod Records
pub mod Restoration
pub mod Written
pub mod Rows
pub mod Filling
pub mod Uploading
pub mod Compensation
pub mod Atomicity
mod Samples

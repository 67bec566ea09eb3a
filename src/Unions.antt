-- ===== src/Unions.antt =====
-- internal/features/unions: the unions of two to ten persons of a tree.
pub mod Domain
pub mod Members
pub mod Versioning
pub mod Store
pub mod Writes
pub mod Counts
pub mod Limits
pub mod Keeping
pub mod History
pub mod Seats
mod Samples

-- ===== src/Relations.antt =====
-- internal/features/relationships: parent-child relations between the persons of a tree.
pub mod Domain
pub mod Validity
pub mod Versioning
pub mod Store
pub mod Reach
pub mod Cycles
pub mod Acyclic
pub mod Writes
pub mod Lifecycle
pub mod History
pub mod Restore
pub mod Outcomes
mod Samples

-- ===== src/Persons.antt =====
-- internal/features/persons: the persons of a tree and their preferred names.
pub mod Domain
pub mod Names
pub mod Validity
pub mod Versioning
mod Samples

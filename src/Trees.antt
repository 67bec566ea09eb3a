-- ===== src/Trees.antt =====
-- internal/features/trees: the family trees and the rights of their members.
pub mod Domain
pub mod Settings
pub mod Store
pub mod Service
pub mod Ownership
pub mod History
mod Samples

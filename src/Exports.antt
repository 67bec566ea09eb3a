-- ===== src/Exports.antt =====
-- internal/features/exports: the GEDCOM and the visual exports of a tree.
pub mod Texts
pub mod Lines
pub mod Families
pub mod Generations
pub mod Alignment
mod Samples

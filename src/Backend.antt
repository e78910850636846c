-- ===== src/Backend.antt =====
-- services/backend/src/backend: the tables, and the domain logic that writes to them.
pub mod Entities
pub mod Session
pub mod Policy
pub mod PageLifecycle
pub mod Decision
pub mod EditDistance
pub mod Correction
pub mod Rows
pub mod ReviewSession
pub mod ReviewWorkflow
pub mod Completeness
pub mod Conflicts
pub mod Publication
pub mod Tests
mod CorrectionTests
mod ReviewTests
mod CompletenessTests
mod ConflictTests

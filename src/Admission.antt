-- ===== src/Admission.antt =====
-- internal/webhook/authorization/namespace_*.go: the admission of changes to namespaces.
mod Tests
pub mod Ownership
pub mod Selectors
pub mod Bypass
pub mod Protection
pub mod Immutability
pub mod Validate
pub mod Mutate

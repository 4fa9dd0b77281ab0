-- ===== src/Api.antt =====
-- api/authorization/v1alpha1: the custom resources and the logic that stands with them.
pub mod Policies
pub mod Impersonation
pub mod Definitions

-- ===== src/Authorize.antt =====
-- internal/webhook/authorization/webhook_authorizer.go: the decision on a SubjectAccessReview.
mod Tests
pub mod Rules
pub mod Principals
pub mod Evaluate
pub mod Bridge
pub mod LiveDeny
pub mod Decide
pub mod Listing
pub mod Authenticate
pub mod Serve

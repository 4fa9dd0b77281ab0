-- ===== src/Policy.antt =====
-- pkg/policy: the evaluation of definitions against an RBACPolicy.
pub mod Matcher
pub mod Labels
pub mod Scope
pub mod RoleRefs
pub mod Namespaces
pub mod Subjects
pub mod Bindings
pub mod Bind
pub mod Impersonation
pub mod Role

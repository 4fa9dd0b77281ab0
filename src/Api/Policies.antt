-- ===== src/Api/Policies.antt =====
-- api/authorization/v1alpha1/rbacpolicy_types.go: what an RBACPolicy limits. A pointer is an
-- `Option`, an int32 a `ℤ`.
use auth_operator.Base.{String, List, Option, Bool, ℤ}
use auth_operator.Kube.{LabelSelector}
use auth_operator.Api.Impersonation.{ImpersonationMode, ImpersonationIdentityResource}

pub record PolicyScope : Type 0 where
  pub namespace_selector : Option LabelSelector
  pub namespaces : List String

pub record RoleRefLimits : Type 0 where
  pub allowed_role_refs : List String
  pub allowed_role_ref_selector : Option LabelSelector
  pub forbidden_role_refs : List String
  pub forbidden_role_ref_selector : Option LabelSelector

pub record NamespaceLimits : Type 0 where
  pub allowed_namespace_selector : Option LabelSelector
  pub forbidden_namespaces : List String
  pub forbidden_namespace_prefixes : List String
  pub max_target_namespaces : Option ℤ

pub record BindingLimits : Type 0 where
  pub allow_cluster_role_bindings : Bool
  pub cluster_role_binding_limits : Option RoleRefLimits
  pub role_binding_limits : Option RoleRefLimits
  pub target_namespace_limits : Option NamespaceLimits

pub record ResourceVerbRule : Type 0 where
  pub resource : String
  pub api_group : String
  pub verbs : List String

pub record NameMatchLimits : Type 0 where
  pub allowed_names : List String
  pub forbidden_names : List String
  pub allowed_prefixes : List String
  pub forbidden_prefixes : List String
  pub allowed_suffixes : List String
  pub forbidden_suffixes : List String

pub record ConstrainedImpersonationLimits : Type 0 where
  pub allowed : Bool
  pub allowed_modes : List ImpersonationMode
  pub allowed_identity_resources : List ImpersonationIdentityResource
  pub identity_name_limits : Option NameMatchLimits
  pub forbidden_action_verbs : List String
  pub forbid_legacy_fallback : Bool
  pub max_identity_names : Option ℤ

pub record RoleLimits : Type 0 where
  pub allow_cluster_roles : Bool
  pub forbidden_verbs : List String
  pub forbidden_resources : List String
  pub forbidden_api_groups : List String
  pub forbidden_resource_verbs : List ResourceVerbRule
  pub max_rules_per_role : Option ℤ
  pub constrained_impersonation : Option ConstrainedImpersonationLimits

pub record SaRef : Type 0 where
  pub name : String
  pub namespace : String

pub record SaCreationConfig : Type 0 where
  pub allow_auto_create : Bool
  pub allowed_creation_namespace_selector : Option LabelSelector
  pub allowed_creation_namespaces : List String
  pub automount_service_account_token : Option Bool
  pub disable_adoption : Bool

pub record ServiceAccountLimits : Type 0 where
  pub allowed_namespace_selector : Option LabelSelector
  pub forbidden_namespaces : List String
  pub forbidden_namespace_prefixes : List String
  pub creation : Option SaCreationConfig

pub record SubjectLimits : Type 0 where
  pub allowed_kinds : List String
  pub forbidden_kinds : List String
  pub user_limits : Option NameMatchLimits
  pub group_limits : Option NameMatchLimits
  pub service_account_limits : Option ServiceAccountLimits

pub record DefaultPolicyAssignment : Type 0 where
  pub groups : List String
  pub service_accounts : List SaRef

pub record ImpersonationExtra : Type 0 where
  pub key : String
  pub values : List String

pub record ImpersonationConfig : Type 0 where
  pub enabled : Bool
  pub service_account_ref : Option SaRef
  pub user_name : String
  pub uid : String
  pub groups : List String
  pub extra : List ImpersonationExtra
  pub mode : ImpersonationMode

pub record RbacPolicySpec : Type 0 where
  pub applies_to : PolicyScope
  pub binding_limits : Option BindingLimits
  pub role_limits : Option RoleLimits
  pub subject_limits : Option SubjectLimits
  pub default_assignment : Option DefaultPolicyAssignment
  pub impersonation : Option ImpersonationConfig

-- The object's metadata and status have no part in an evaluation.
pub record RbacPolicy : Type 0 where
  pub name : String
  pub spec : RbacPolicySpec

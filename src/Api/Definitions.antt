-- ===== src/Api/Definitions.antt =====
-- api/authorization/v1alpha1/{binddefinition,roledefinition,restrictedbinddefinition,
-- restrictedroledefinition}_types.go: the restricted definitions that a policy governs.
use auth_operator.Base.{ℕ, String, List, Option, Bool}
use auth_operator.Kube.{LabelSelector, Subject, ApiResource, GroupVersion}
use auth_operator.Api.Policies.{SaRef}
use auth_operator.Api.Impersonation.{ConstrainedImpersonationSpec}

pub record ClusterBinding : Type 0 where
  pub cluster_role_refs : List String

pub record NamespaceBinding : Type 0 where
  pub authorize_before_binding : Bool
  pub cluster_role_refs : List String
  pub role_refs : List String
  pub namespace : String
  pub namespace_selector : List LabelSelector

pub record RestrictedApiGroup : Type 0 where
  pub name : String
  pub versions : List GroupVersion
  pub verbs : List String

-- `PolicyRef` is held by the name that it gives.
pub record RestrictedBindDefinitionSpec : Type 0 where
  pub policy_ref : String
  pub target_name : String
  pub subjects : List Subject
  pub cluster_role_bindings : Option ClusterBinding
  pub role_bindings : List NamespaceBinding
  pub automount_service_account_token : Option Bool

pub record RestrictedBindDefinition : Type 0 where
  pub name : String
  pub spec : RestrictedBindDefinitionSpec

pub record RestrictedRoleDefinitionSpec : Type 0 where
  pub policy_ref : String
  pub target_role : String
  pub target_name : String
  pub target_namespace : String
  pub scope_namespaced : Bool
  pub restricted_apis : List RestrictedApiGroup
  pub restricted_resources : List ApiResource
  pub restricted_verbs : List String
  pub constrained_impersonation : Option ConstrainedImpersonationSpec

pub record RestrictedRoleDefinition : Type 0 where
  pub name : String
  pub spec : RestrictedRoleDefinitionSpec

pub record BindDefinitionSpec : Type 0 where
  pub target_name : String
  pub subjects : List Subject
  pub external_service_account_refs : List SaRef
  pub cluster_role_bindings : ClusterBinding
  pub role_bindings : List NamespaceBinding
  pub automount_service_account_token : Option Bool

-- Of the metadata: the name, and the time of the deletion, if it has begun.
pub record BindDefinition : Type 0 where
  pub name : String
  pub deletion_timestamp : Option ℕ
  pub spec : BindDefinitionSpec

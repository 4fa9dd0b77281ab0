-- ===== src/Tests/Sample.antt =====
-- The cluster, the policy and the definitions of the tests.
use auth_operator.Base.{
  pos, String, Option, none, some, Bool, true, false, [], ◌∷◌, ◌==◌, ◌&&◌, ◌||◌, if◌then◌else◌, all,
  any,
}
use auth_operator.Kube.{Labels, LabelSelector, Selectors}
use auth_operator.Api.Policies.{
  PolicyScope, RoleRefLimits, NamespaceLimits, BindingLimits, NameMatchLimits,
  ConstrainedImpersonationLimits, RoleLimits, SubjectLimits, RbacPolicy,
}
use auth_operator.Api.Definitions.{RestrictedBindDefinition, RestrictedRoleDefinition}
use auth_operator.Policy.Labels.{LabelGetter, ok}
use auth_operator.Api.Impersonation.{ConstrainedImpersonationSpec}

-- A cluster with three namespaces, of which two belong to a team; selectors match by labels.
abbrev pub holds : Labels → (String × String) → Bool
holds labels (key, value) = any (λ (kv : String × String). kv.0 == key && kv.1 == value) labels

abbrev pub by_labels : Selectors
by_labels = record { as_selector = λ s. some (λ labels. all (holds labels) s.match_labels) }

abbrev pub team : Labels
team = ("team", "blue") ∷ []

abbrev pub labels_of : String → Option Labels × Bool
labels_of name =
    if name == "blue-1" || name == "blue-2" then (some team, true) else (none, name == "default")

abbrev pub cluster : LabelGetter
cluster = record {
  get_namespace_labels = labels_of;
  get_cluster_role_labels = λ name. (some (("tier", "safe") ∷ []), name == "view");
  get_role_labels = λ ns name. (none, false);
  list_namespaces_by_selector = λ s. ok ("blue-1" ∷ "blue-2" ∷ []);
}

abbrev pub team_selector : LabelSelector
team_selector = record { match_labels = team; match_expressions = [] }

abbrev pub scope : PolicyScope
scope = record { namespace_selector = some team_selector; namespaces = "default" ∷ [] }

abbrev pub ref_limits : RoleRefLimits
ref_limits = record {
  allowed_role_refs = "view" ∷ "team-*" ∷ [];
  allowed_role_ref_selector = none;
  forbidden_role_refs = "*-admin" ∷ [];
  forbidden_role_ref_selector = none;
}

abbrev pub namespace_limits : NamespaceLimits
namespace_limits = record {
  allowed_namespace_selector = none;
  forbidden_namespaces = "kube-system" ∷ [];
  forbidden_namespace_prefixes = "kube-" ∷ [];
  max_target_namespaces = some (pos 2);
}

abbrev pub binding_limits : BindingLimits
binding_limits = record {
  allow_cluster_role_bindings = false;
  cluster_role_binding_limits = some ref_limits;
  role_binding_limits = some ref_limits;
  target_namespace_limits = some namespace_limits;
}

abbrev pub name_limits : NameMatchLimits
name_limits = record {
  allowed_names = "root@blue" ∷ [];
  forbidden_names = [];
  allowed_prefixes = [];
  forbidden_prefixes = "system:" ∷ [];
  allowed_suffixes = "@blue" ∷ [];
  forbidden_suffixes = [];
}

abbrev pub subject_limits : SubjectLimits
subject_limits = record {
  allowed_kinds = "User" ∷ [];
  forbidden_kinds = "Group" ∷ [];
  user_limits = some name_limits;
  group_limits = none;
  service_account_limits = none;
}

abbrev pub impersonation_limits : ConstrainedImpersonationLimits
impersonation_limits = record {
  allowed = true;
  allowed_modes = "user-info" ∷ [];
  allowed_identity_resources = "users" ∷ [];
  identity_name_limits = some name_limits;
  forbidden_action_verbs = "delete*" ∷ [];
  forbid_legacy_fallback = true;
  max_identity_names = some (pos 1);
}

abbrev pub role_limits : RoleLimits
role_limits = record {
  allow_cluster_roles = false;
  forbidden_verbs = "escalate" ∷ [];
  forbidden_resources = "secrets" ∷ [];
  forbidden_api_groups = "rbac.*" ∷ [];
  forbidden_resource_verbs =
      record { resource = "nodes"; api_group = ""; verbs = "delete" ∷ [] } ∷ [];
  max_rules_per_role = some (pos 10);
  constrained_impersonation = some impersonation_limits;
}

abbrev pub policy : RbacPolicy
policy = record {
  name = "blue";
  spec = record {
    applies_to = scope;
    binding_limits = some binding_limits;
    role_limits = some role_limits;
    subject_limits = some subject_limits;
    default_assignment = none;
    impersonation = none;
  };
}

abbrev pub bind : String → String → RestrictedBindDefinition
bind role user = record {
  name = "bind";
  spec = record {
    policy_ref = "blue";
    target_name = "bind";
    subjects = record { kind = "User"; api_group = ""; name = user; namespace = "" } ∷ [];
    cluster_role_bindings = none;
    role_bindings =
        record {
          authorize_before_binding = false;
          cluster_role_refs = role ∷ [];
          role_refs = [];
          namespace = "";
          namespace_selector = team_selector ∷ team_selector ∷ [];
        }
        ∷ [];
    automount_service_account_token = none;
  };
}

abbrev pub grant : String → ConstrainedImpersonationSpec
grant name = record {
  mode = "user-info";
  identities = record { resource = "users"; extra_key = ""; names = name ∷ [] } ∷ [];
  actions =
      record {
        api_groups = "" ∷ [];
        resources = "pods" ∷ [];
        resource_names = [];
        verbs = "get" ∷ [];
      }
      ∷ [];
}

abbrev pub role : String → String → RestrictedRoleDefinition
role namespace name = record {
  name = "role";
  spec = record {
    policy_ref = "blue";
    target_role = "Role";
    target_name = "role";
    target_namespace = namespace;
    scope_namespaced = true;
    restricted_apis = record { name = "rbac.*"; versions = []; verbs = [] } ∷ [];
    restricted_resources =
        record {
          name = "secrets";
          namespaced = true;
          group = "*";
          version = "";
          kind = "";
          verbs = [];
        }
        ∷ [];
    restricted_verbs = "escalate" ∷ "impersonate" ∷ "delete" ∷ [];
    constrained_impersonation = some (grant name);
  };
}

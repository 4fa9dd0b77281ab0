-- ===== src/Tests.antt =====
-- Runs of the model at fixed inputs, and the properties applied to them.
mod Sample
use auth_operator.Base.{
  Option, none, some, Bool, true, false, [], ◌∷◌, ◌==◌, ◌≡◌, refl, ◌↔◌, ◌&&◌, ◌||◌, if◌then◌else◌,
  inl, inr, all, any, All, plain, nonempty, join, cut_prefix, cut_suffix, has_prefix, has_suffix,
  cut, split, sort, compact, insert_sorted, str_le,
}
use auth_operator.Kube.{Labels, LabelSelector, Selectors}
use auth_operator.Api.Policies.{
  PolicyScope, RoleRefLimits, NamespaceLimits, BindingLimits, NameMatchLimits,
  ConstrainedImpersonationLimits, RoleLimits, SubjectLimits, RbacPolicy,
}
use auth_operator.Api.Definitions.{RestrictedBindDefinition, RestrictedRoleDefinition}
use auth_operator.Api.Impersonation.Verbs.{
  parse_impersonation_verb-identity_verb, parse_impersonation_verb-action_verb,
}
use auth_operator.Policy.Matcher.Glob.{Glob}
use auth_operator.Policy.Matcher.Laws.{matches_wildcard_iff}
use auth_operator.Policy.Matcher.Names.{
  Covers, api_group_restriction_covers_iff, CoversName, matches_resource_name_iff,
}
use auth_operator.Policy.Scope.Laws.{InScope, namespace_in_scope_iff}
use auth_operator.Policy.RoleRefs.Laws.{RoleRefPermitted, check_role_ref-eq-nil_iff}
use auth_operator.Policy.Namespaces.Laws.{NamespacePermitted, check_namespace-eq-nil_iff}
use auth_operator.Policy.Subjects.Laws.{
  NamePermitted, SubjectPermitted, check_name_match_limits-eq-nil_iff,
  evaluate_subject_limits-eq-nil_iff,
}
use auth_operator.Policy.Bindings.Laws.{BindingsPermitted, evaluate_binding_limits-eq-nil_iff}
use auth_operator.Policy.Bind.Compliance.{BindCompliant, evaluate_bind_definition-eq-nil_iff}
use auth_operator.Policy.Impersonation.Names.{
  NameAccepted, name_match_violation-eq-none_iff, name_match_violation_of_check_name_match_limits,
}
use auth_operator.Policy.Impersonation.Laws.{
  ImpersonationOk, evaluate_constrained_impersonation-eq-nil_iff,
}
use auth_operator.Policy.Role.RuleCount.{WithinRules, check_max_rules_per_role-eq-none_iff}
use auth_operator.Policy.Role.Compliance.{RoleCompliant, evaluate_role_definition-eq-nil_iff}
use auth_operator.Policy.Bind.{
  evaluate_bind_definition, check_answer_scope, check_selector_scope, check_binding_scope,
  check_subject_scope, check_binding_limits, check_subject_limits, evaluate_bind_definition_of,
}
use auth_operator.Policy.Bindings.{
  evaluate_binding_limits, restricted_bind_cluster_role_refs, rbd_has_role_refs,
  check_cluster_role_refs, evaluate_cluster_role_binding_limits, check_ref_in_answer,
  check_unplaced_role_ref, check_binding_role_ref, check_binding_role_refs, check_role_binding,
  evaluate_role_binding_limits,
}
use auth_operator.Policy.Namespaces.{
  check_namespace, check_bindings, evaluate_namespace_limits, check_max_targets,
  check_namespace_selector, check_resolved, check_answer, check_selector, check_selectors,
  check_binding,
}
use auth_operator.Policy.RoleRefs.{check_role_ref, check_forbidden_selector, allowed_by_selector}
use auth_operator.Policy.Subjects.{
  check_name_match_limits, evaluate_subject_limits, check_account_selector,
  check_service_account_limits, check_by_kind, check_subject,
}
use auth_operator.Policy.Scope.{
  namespace_in_scope, selected_in_scope, scope_allows_cluster_resources,
}
use auth_operator.Policy.Matcher.{
  has_any_prefix, has_any_suffix, matches_wildcard, matches_resource_name,
  api_group_restriction_covers, match_middle, match_parts, matches_any_wildcard,
  contains_string_or_wildcard, matches_api_group,
}
use auth_operator.Policy.Labels.{LabelGetter, ok, matches_selector}
use auth_operator.Policy.Role.{
  evaluate_role_definition_with_labels, is_api_group_fully_restricted, is_resource_fully_restricted,
  is_resource_excluded_for_group, is_api_group_excluded, is_api_group_verb_restricted,
  uncovered_verbs, check_resource_verbs, evaluate_role_limits, evaluate_role_definition_of,
  evaluate_role_definition, check_max_rules_per_role,
}
use auth_operator.Policy.Impersonation.{
  name_match_violation, evaluate_constrained_impersonation, forbids_resource_verb,
  forbidden_resource_verb_violation, check_generated_verb, check_generated_rules,
  evaluate_impersonation_verb_denylist, evaluate_impersonation_mode_and_resources, first_prefix,
  first_suffix, allow_violation, total_names, check_max_names, check_identity_names,
  evaluate_impersonation_identity_names, evaluate_impersonation_actions,
  evaluate_impersonation_legacy_fallback, check_grant,
}
use auth_operator.Api.Impersonation.{
  ConstrainedImpersonationSpec, identity_verb, action_verb, parse_impersonation_verb,
  is_impersonation_verb, is_known_mode, parse_action, parse_identity, parse_by_prefix,
  identity_rule_resource, dedupe_sorted, dedupe_sorted_allow_empty, names_by_resource,
  identity_policy_rule, action_policy_rule, build_constrained_impersonation_rules,
}
use auth_operator.Tests.Sample.{
  holds, by_labels, team, labels_of, cluster, team_selector, scope, ref_limits, namespace_limits,
  binding_limits, name_limits, subject_limits, impersonation_limits, role_limits, policy, bind,
  grant, role,
}

-- The definitions comply; with another role or another namespace they do not.
runs :
    (evaluate_bind_definition by_labels
        (some cluster)
        (some policy)
        (some (bind "view" "root@blue"))
      ≡ [])
    × (nonempty (
          evaluate_bind_definition by_labels
            (some cluster)
            (some policy)
            (some (bind "team-admin" "root@blue")))
        ≡ true)
    × (evaluate_role_definition_with_labels by_labels
          (some cluster)
          (some policy)
          (some (role "blue-1" "root@blue"))
        ≡ [])
    × (nonempty (
          evaluate_role_definition_with_labels by_labels
            (some cluster)
            (some policy)
            (some (role "red" "root@blue")))
        ≡ true)
unfolding check_answer_scope check_selector_scope check_binding_scope check_subject_scope
    check_binding_limits check_subject_limits evaluate_bind_definition_of evaluate_bind_definition
    restricted_bind_cluster_role_refs rbd_has_role_refs check_cluster_role_refs
    evaluate_cluster_role_binding_limits check_ref_in_answer check_unplaced_role_ref
    check_binding_role_ref check_binding_role_refs check_role_binding evaluate_role_binding_limits
    evaluate_binding_limits check_max_targets check_namespace_selector check_namespace
    check_resolved check_answer check_selector check_selectors check_binding check_bindings
    evaluate_namespace_limits check_forbidden_selector allowed_by_selector check_role_ref
    check_name_match_limits check_account_selector check_service_account_limits check_by_kind
    check_subject evaluate_subject_limits selected_in_scope namespace_in_scope
    scope_allows_cluster_resources match_middle match_parts matches_wildcard matches_any_wildcard
    contains_string_or_wildcard matches_api_group matches_resource_name api_group_restriction_covers
    has_any_prefix has_any_suffix matches_selector is_api_group_fully_restricted
    is_resource_fully_restricted is_resource_excluded_for_group is_api_group_excluded
    is_api_group_verb_restricted uncovered_verbs check_resource_verbs evaluate_role_limits
    evaluate_role_definition_of evaluate_role_definition_with_labels evaluate_role_definition
    check_max_rules_per_role forbids_resource_verb forbidden_resource_verb_violation
    check_generated_verb check_generated_rules evaluate_impersonation_verb_denylist
    evaluate_impersonation_mode_and_resources first_prefix first_suffix allow_violation
    name_match_violation total_names check_max_names check_identity_names
    evaluate_impersonation_identity_names evaluate_impersonation_actions
    evaluate_impersonation_legacy_fallback check_grant evaluate_constrained_impersonation
    identity_verb action_verb is_impersonation_verb is_known_mode parse_action parse_identity
    parse_by_prefix parse_impersonation_verb identity_rule_resource dedupe_sorted
    dedupe_sorted_allow_empty names_by_resource identity_policy_rule action_policy_rule
    build_constrained_impersonation_rules cut_prefix cut_suffix has_prefix has_suffix cut split sort
    compact insert_sorted str_le join
runs = (refl, refl, refl, refl)

evaluate_bind_definition-eq-nil_iff_example :
    (evaluate_bind_definition by_labels
        (some cluster)
        (some policy)
        (some (bind "view" "root@blue"))
      ≡ [])
    ↔ BindCompliant by_labels (some cluster) policy (bind "view" "root@blue")
evaluate_bind_definition-eq-nil_iff_example =
    evaluate_bind_definition-eq-nil_iff by_labels (some cluster) policy (bind "view" "root@blue")

evaluate_role_definition-eq-nil_iff_example :
    (evaluate_role_definition_with_labels by_labels
        (some cluster)
        (some policy)
        (some (role "blue-1" "root@blue"))
      ≡ [])
    ↔ RoleCompliant by_labels (some cluster) policy (role "blue-1" "root@blue")
evaluate_role_definition-eq-nil_iff_example =
    evaluate_role_definition-eq-nil_iff by_labels (some cluster) policy (role "blue-1" "root@blue")

evaluate_constrained_impersonation-eq-nil_iff_example :
    (evaluate_constrained_impersonation role_limits (role "blue-1" "root@blue") ≡ [])
    ↔ ImpersonationOk role_limits (role "blue-1" "root@blue") (some (grant "root@blue"))
evaluate_constrained_impersonation-eq-nil_iff_example =
    evaluate_constrained_impersonation-eq-nil_iff role_limits (role "blue-1" "root@blue")

evaluate_binding_limits-eq-nil_iff_example :
    (evaluate_binding_limits by_labels (some cluster) binding_limits (bind "view" "root@blue") ≡ [])
    ↔ BindingsPermitted by_labels (some cluster) binding_limits (bind "view" "root@blue")
evaluate_binding_limits-eq-nil_iff_example =
    evaluate_binding_limits-eq-nil_iff by_labels (some cluster) binding_limits
      (bind "view" "root@blue")

evaluate_subject_limits-eq-nil_iff_example :
    (evaluate_subject_limits by_labels
        (some cluster)
        subject_limits
        (bind "view" "root@blue").spec.subjects
      ≡ [])
    ↔ All
        (SubjectPermitted by_labels (some cluster) subject_limits)
        (bind "view" "root@blue").spec.subjects
evaluate_subject_limits-eq-nil_iff_example =
    evaluate_subject_limits-eq-nil_iff by_labels (some cluster) subject_limits
      (bind "view" "root@blue").spec.subjects

check_role_ref-eq-nil_iff_example :
    (check_role_ref by_labels ref_limits "team-admin" (plain "spec.roleBindings") none true ≡ [])
    ↔ RoleRefPermitted by_labels ref_limits "team-admin" none true
check_role_ref-eq-nil_iff_example =
    check_role_ref-eq-nil_iff by_labels ref_limits "team-admin" (plain "spec.roleBindings") none
      true

namespace_in_scope_iff_example :
    (namespace_in_scope by_labels (some cluster) scope "blue-1" ≡ true)
    ↔ InScope by_labels (some cluster) scope "blue-1"
namespace_in_scope_iff_example = namespace_in_scope_iff by_labels (some cluster) scope "blue-1"

check_namespace-eq-nil_iff_example :
    (check_namespace by_labels (some cluster) namespace_limits "kube-public" (plain "spec") ≡ [])
    ↔ NamespacePermitted by_labels (some cluster) namespace_limits "kube-public"
check_namespace-eq-nil_iff_example =
    check_namespace-eq-nil_iff by_labels (some cluster) namespace_limits "kube-public"
      (plain "spec")

check_name_match_limits-eq-nil_iff_example :
    (check_name_match_limits name_limits "root@blue" (plain "spec.subjects") ≡ [])
    ↔ NamePermitted name_limits "root@blue"
check_name_match_limits-eq-nil_iff_example =
    check_name_match_limits-eq-nil_iff name_limits "root@blue" (plain "spec.subjects")

name_match_violation-eq-none_iff_example :
    (name_match_violation name_limits "ann@blue" ≡ none) ↔ NameAccepted name_limits "ann@blue"
name_match_violation-eq-none_iff_example = name_match_violation-eq-none_iff name_limits "ann@blue"

name_match_violation_of_check_name_match_limits_example :
    name_match_violation name_limits "root@blue" ≡ none
unfolding check_name_match_limits cut_prefix cut_suffix has_prefix has_suffix has_any_prefix
    has_any_suffix
name_match_violation_of_check_name_match_limits_example =
    name_match_violation_of_check_name_match_limits name_limits "root@blue" (plain "spec.subjects")
      refl

matches_wildcard_iff_example : (matches_wildcard "a*b*c" "aXbbc" ≡ true) ↔ Glob "a*b*c" "aXbbc"
matches_wildcard_iff_example = matches_wildcard_iff "a*b*c" "aXbbc"

matches_resource_name_iff_example :
    (matches_resource_name "pods" "pods/log" ≡ true) ↔ CoversName "pods" "pods/log"
matches_resource_name_iff_example = matches_resource_name_iff "pods" "pods/log"

api_group_restriction_covers_iff_example :
    (api_group_restriction_covers "apps*" "*" ≡ true) ↔ Covers "apps*" "*"
api_group_restriction_covers_iff_example = api_group_restriction_covers_iff "apps*" "*"

parse_impersonation_verb-identity_verb_example :
    parse_impersonation_verb (identity_verb "user-info")
    ≡ some (record { mode = "user-info"; action = ""; is_action = false })
parse_impersonation_verb-identity_verb_example =
    parse_impersonation_verb-identity_verb "user-info" (inr (inr (inr (inl refl))))

parse_impersonation_verb-action_verb_example :
    parse_impersonation_verb (action_verb "user-info" "get")
    ≡ some (record { mode = "user-info"; action = "get"; is_action = true })
parse_impersonation_verb-action_verb_example =
    parse_impersonation_verb-action_verb "user-info" "get" (inr (inr (inr (inl refl)))) (λ e. cc)

check_max_rules_per_role-eq-none_iff_example :
    (check_max_rules_per_role (some role_limits) 11 ≡ none) ↔ WithinRules (some role_limits) 11
check_max_rules_per_role-eq-none_iff_example =
    check_max_rules_per_role-eq-none_iff (some role_limits) 11

-- ===== src/Policy/Role.antt =====
-- pkg/policy/role_evaluator.go: the evaluation of a RestrictedRoleDefinition.
pub mod Compliance
pub mod RuleCount
use auth_operator.Base.{
  ℕ, ℤ, String, List, Option, none, some, Bool, true, false, not, ◌&&◌, ◌||◌, [], ◌∷◌, ◌++◌, ◌==◌,
  nonempty, report, if◌then◌else◌, Text, sprintf, plain, str, num, int, each, any, exceeds, join,
}
use auth_operator.Kube.{Selectors, ApiResource}
use auth_operator.Api.Policies.{RoleLimits, ResourceVerbRule, RbacPolicy}
use auth_operator.Api.Definitions.{RestrictedApiGroup, RestrictedRoleDefinition}
use auth_operator.Policy.Labels.{Violation, LabelGetter}
use auth_operator.Policy.Matcher.{
  contains_string_or_wildcard, matches_api_group, matches_resource_name,
  api_group_restriction_covers,
}
use auth_operator.Policy.Scope.{namespace_in_scope, scope_allows_cluster_resources}
use auth_operator.Policy.Impersonation.{evaluate_constrained_impersonation}

abbrev pub definition_cluster_role : String
definition_cluster_role = "ClusterRole"

unfoldable pub is_api_group_fully_restricted : RestrictedRoleDefinition → String → Bool
is_api_group_fully_restricted rrd group =
    any
      (λ (api : RestrictedApiGroup).
        matches_api_group api.name group
        && (not (nonempty api.versions) && not (nonempty api.verbs)))
      rrd.spec.restricted_apis

unfoldable pub is_resource_fully_restricted : RestrictedRoleDefinition → String → Bool
is_resource_fully_restricted rrd res =
    any
      (λ (rr : ApiResource).
        matches_resource_name rr.name res && api_group_restriction_covers rr.group "*")
      rrd.spec.restricted_resources

unfoldable pub is_resource_excluded_for_group : RestrictedRoleDefinition → String → String → Bool
is_resource_excluded_for_group rrd resource api_group =
    any
      (λ (rr : ApiResource).
        matches_resource_name rr.name resource && api_group_restriction_covers rr.group api_group)
      rrd.spec.restricted_resources

unfoldable pub is_api_group_excluded : RestrictedRoleDefinition → String → Bool
is_api_group_excluded rrd api_group =
    any
      (λ (api : RestrictedApiGroup).
        matches_api_group api.name api_group
        && (not (nonempty api.versions) && not (nonempty api.verbs)))
      rrd.spec.restricted_apis

unfoldable pub is_api_group_verb_restricted : RestrictedRoleDefinition → String → String → Bool
is_api_group_verb_restricted rrd api_group verb =
    any
      (λ (api : RestrictedApiGroup).
        matches_api_group api.name api_group
        && (not (nonempty api.versions)
            && (nonempty api.verbs && contains_string_or_wildcard api.verbs verb)))
      rrd.spec.restricted_apis

-- The loop that collects the verbs of a rule that nothing restricts.
unfoldable pub uncovered_verbs : RestrictedRoleDefinition → String → List String → List String
uncovered_verbs rrd api_group [] = []
uncovered_verbs rrd api_group (verb ∷ verbs) =
    report
      (not (contains_string_or_wildcard rrd.spec.restricted_verbs verb)
        && not (is_api_group_verb_restricted rrd api_group verb))
      verb
    ++ uncovered_verbs rrd api_group verbs

-- The body of the loop over the forbidden combinations; `continue` ends the first two branches.
unfoldable pub check_resource_verbs : RestrictedRoleDefinition → ResourceVerbRule → List Violation
check_resource_verbs rrd rule =
    if is_resource_excluded_for_group rrd rule.resource rule.api_group
    then []
    else if is_api_group_excluded rrd rule.api_group
    then []
    else let uncovered = uncovered_verbs rrd rule.api_group rule.verbs in
      report (nonempty uncovered) (record {
        field = plain "spec.restrictedVerbs";
        message =
            sprintf
              "forbidden resource+verb combination: resource %q (apiGroup %q) with verbs [%s] must be restricted"
              (str rule.resource ∷ str rule.api_group ∷ str (join uncovered ", ") ∷ []);
      })

unfoldable pub evaluate_role_limits : RoleLimits → RestrictedRoleDefinition → List Violation
evaluate_role_limits limits rrd =
    report (not limits.allow_cluster_roles && rrd.spec.target_role == definition_cluster_role)
      (record {
        field = plain "spec.targetRole";
        message = plain "ClusterRoles are not allowed by policy";
      })
    ++ (each
          (λ _ verb.
            report (not (contains_string_or_wildcard rrd.spec.restricted_verbs verb)) (record {
              field = plain "spec.restrictedVerbs";
              message =
                  sprintf "forbidden verb %q must be listed in restrictedVerbs" (str verb ∷ []);
            }))
          limits.forbidden_verbs
        ++ (each
              (λ _ group. report (not (is_api_group_fully_restricted rrd group)) (record {
                field = plain "spec.restrictedApis";
                message =
                    sprintf "forbidden API group %q must be listed in restrictedApis"
                      (str group ∷ []);
              }))
              limits.forbidden_api_groups
            ++ (each
                  (λ _ res. report (not (is_resource_fully_restricted rrd res)) (record {
                    field = plain "spec.restrictedResources";
                    message =
                        sprintf "forbidden resource %q must be listed in restrictedResources"
                          (str res ∷ []);
                  }))
                  limits.forbidden_resources
                ++ (each (λ _ rule. check_resource_verbs rrd rule) limits.forbidden_resource_verbs
                    ++ evaluate_constrained_impersonation limits rrd))))

abbrev pub evaluate_limits : Option RoleLimits → RestrictedRoleDefinition → List Violation
evaluate_limits none rrd =
    record {
      field = plain "spec.policyRef";
      message = plain "policy roleLimits must be configured to allow role generation";
    }
    ∷ []
evaluate_limits (some limits) rrd = evaluate_role_limits limits rrd

module _ (sel : Selectors) (lg : Option LabelGetter) where
  -- `EvaluateRoleDefinitionWithLabels` behind its tests for nil.
  unfoldable pub evaluate_role_definition_of :
      RbacPolicy → RestrictedRoleDefinition → List Violation
  evaluate_role_definition_of policy rrd =
      report
        (rrd.spec.target_role == definition_cluster_role
          && not (scope_allows_cluster_resources policy.spec.applies_to))
        (record {
          field = plain "spec.targetRole";
          message = plain "ClusterRoles require appliesTo.namespaces to include \"*\"";
        })
      ++ (report
            (not (rrd.spec.target_namespace == "")
              && not (namespace_in_scope sel lg policy.spec.applies_to rrd.spec.target_namespace))
            (record {
              field = plain "spec.targetNamespace";
              message =
                  sprintf "namespace %q is outside the policy's appliesTo scope"
                    (str rrd.spec.target_namespace ∷ []);
            })
          ++ evaluate_limits policy.spec.role_limits rrd)

  unfoldable pub evaluate_role_definition_with_labels :
      Option RbacPolicy → Option RestrictedRoleDefinition → List Violation
  evaluate_role_definition_with_labels none rrd =
      record { field = plain "<policy>"; message = plain "policy must not be nil" } ∷ []
  evaluate_role_definition_with_labels (some policy) none =
      record { field = plain "<rrd>"; message = plain "RestrictedRoleDefinition must not be nil" }
      ∷ []
  evaluate_role_definition_with_labels (some policy) (some rrd) =
      evaluate_role_definition_of policy rrd

unfoldable pub evaluate_role_definition :
    Selectors → Option RbacPolicy → Option RestrictedRoleDefinition → List Violation
evaluate_role_definition sel policy rrd = evaluate_role_definition_with_labels sel none policy rrd

-- The number of rules against the maximum; `none` is the nil of the source.
abbrev pub check_rule_count : Option ℤ → ℕ → Option Violation
check_rule_count none rule_count = none
check_rule_count (some max_rules) rule_count =
    if exceeds rule_count max_rules
    then some (record {
      field = plain "generated rules";
      message =
          sprintf "generated role has %d rules, exceeding maximum of %d"
            (num rule_count ∷ int max_rules ∷ []);
    })
    else none

unfoldable pub check_max_rules_per_role : Option RoleLimits → ℕ → Option Violation
check_max_rules_per_role none rule_count = none
check_max_rules_per_role (some limits) rule_count =
    check_rule_count limits.max_rules_per_role rule_count

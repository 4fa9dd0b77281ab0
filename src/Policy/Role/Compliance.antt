-- ===== src/Policy/Role/Compliance.antt =====
-- When a RestrictedRoleDefinition complies with its policy.
use auth_operator.Base.{
  String, List, Option, none, some, true, [], ◌∷◌, All, Any, In, contains_iff, any_iff, and_iff,
  eq_iff, ◌≡◌, ◌≢◌, refl, ◌↔◌, ◌⊎◌, arith, iff_trans, report-eq-nil_iff, append-eq-nil_iff,
  each-eq-nil_iff, empty_iff, nonempty_iff, nonempty-eq-false_iff, not_iff, neither_iff,
  either_not_iff, unless_or_iff, unless_iff,
}
use auth_operator.Kube.{Selectors, ApiResource}
use auth_operator.Api.Policies.{PolicyScope, RoleLimits, ResourceVerbRule, RbacPolicy}
use auth_operator.Api.Definitions.{RestrictedApiGroup, RestrictedRoleDefinition}
use auth_operator.Policy.Labels.{LabelGetter}
use auth_operator.Policy.Matcher.Glob.{Glob}
use auth_operator.Policy.Matcher.Names.{
  Covers, api_group_restriction_covers_iff, CoversName, matches_resource_name_iff,
  contains_string_or_wildcard_iff, matches_api_group_iff,
}
use auth_operator.Policy.Scope.{scope_allows_cluster_resources}
use auth_operator.Policy.Scope.Laws.{InScope, namespace_in_scope_iff}
use auth_operator.Policy.Impersonation.Laws.{
  ImpersonationOk, evaluate_constrained_impersonation-eq-nil_iff,
}
use auth_operator.Policy.Role.{
  is_api_group_fully_restricted, is_resource_fully_restricted, is_resource_excluded_for_group,
  is_api_group_excluded, is_api_group_verb_restricted, uncovered_verbs, check_resource_verbs,
  evaluate_role_limits, evaluate_limits, evaluate_role_definition_of,
  evaluate_role_definition_with_labels,
}

-- The verb is restricted, by name or by "*".
abbrev pub Restricts : List String → String → Type 0
Restricts restricted verb = Any (λ s. (s ≡ verb) ⊎ (s ≡ "*")) restricted

-- An entry for the group takes away all its versions and all its verbs.
abbrev pub GroupRemoved : RestrictedRoleDefinition → String → Type 0
GroupRemoved rrd group =
    Any
      (λ (api : RestrictedApiGroup). Glob api.name group × ((api.versions ≡ []) × (api.verbs ≡ [])))
      rrd.spec.restricted_apis

-- An entry for the resource reaches the group (with "*", every group).
abbrev pub ResourceRemoved : RestrictedRoleDefinition → String → String → Type 0
ResourceRemoved rrd resource group =
    Any (λ (rr : ApiResource). CoversName rr.name resource × Covers rr.group group)
      rrd.spec.restricted_resources

-- An entry for all versions of the group takes away the verb.
abbrev pub GroupVerbRemoved : RestrictedRoleDefinition → String → String → Type 0
GroupVerbRemoved rrd group verb =
    Any
      (λ (api : RestrictedApiGroup).
        Glob api.name group × ((api.versions ≡ []) × ((api.verbs ≢ []) × Restricts api.verbs verb)))
      rrd.spec.restricted_apis

-- A forbidden combination is out of reach: its resource is removed, its group is, or each verb.
abbrev pub CombinationRemoved : RestrictedRoleDefinition → ResourceVerbRule → Type 0
CombinationRemoved rrd rule =
    ResourceRemoved rrd rule.resource rule.api_group
    ⊎ (GroupRemoved rrd rule.api_group
        ⊎ All (λ v. Restricts rrd.spec.restricted_verbs v ⊎ GroupVerbRemoved rrd rule.api_group v)
            rule.verbs)

pub record RolePermitted (limits : RoleLimits) (rrd : RestrictedRoleDefinition) : Type 0 where
  pub cluster_role : (limits.allow_cluster_roles ≡ true) ⊎ (rrd.spec.target_role ≢ "ClusterRole")
  pub verbs : All (Restricts rrd.spec.restricted_verbs) limits.forbidden_verbs
  pub groups : All (GroupRemoved rrd) limits.forbidden_api_groups
  pub resources : All (λ res. ResourceRemoved rrd res "*") limits.forbidden_resources
  pub combinations : All (CombinationRemoved rrd) limits.forbidden_resource_verbs
  pub impersonation : ImpersonationOk limits rrd rrd.spec.constrained_impersonation

abbrev pub RoleOk : Option RoleLimits → RestrictedRoleDefinition → Type 0
RoleOk none rrd = ⊥
RoleOk (some limits) rrd = RolePermitted limits rrd

-- What a policy demands of a definition; without limits on roles none complies.
pub record RoleCompliant (sel : Selectors) (lg : Option LabelGetter) (policy : RbacPolicy)
    (rrd : RestrictedRoleDefinition) : Type 0 where
  pub cluster_scope :
      (rrd.spec.target_role ≢ "ClusterRole") ⊎ In "*" policy.spec.applies_to.namespaces
  pub target_scope :
      (rrd.spec.target_namespace ≡ "")
      ⊎ InScope sel lg policy.spec.applies_to rrd.spec.target_namespace
  pub limits : RoleOk policy.spec.role_limits rrd

module _ (rrd : RestrictedRoleDefinition) where
  GroupRemoved-iff :
      (group : String) → (is_api_group_fully_restricted rrd group ≡ true) ↔ GroupRemoved rrd group
  unfolding is_api_group_fully_restricted
  GroupRemoved-iff group =
      any_iff _
        (λ (api : RestrictedApiGroup).
          and_iff _ _ (matches_api_group_iff api.name group)
            (and_iff _ _ (empty_iff api.versions) (empty_iff api.verbs)))
        rrd.spec.restricted_apis

  group_excluded_iff :
      (group : String) → (is_api_group_excluded rrd group ≡ true) ↔ GroupRemoved rrd group
  unfolding is_api_group_excluded
  group_excluded_iff group =
      any_iff _
        (λ (api : RestrictedApiGroup).
          and_iff _ _ (matches_api_group_iff api.name group)
            (and_iff _ _ (empty_iff api.versions) (empty_iff api.verbs)))
        rrd.spec.restricted_apis

  ResourceRemoved-iff :
      (res : String) → (is_resource_fully_restricted rrd res ≡ true) ↔ ResourceRemoved rrd res "*"
  unfolding is_resource_fully_restricted
  ResourceRemoved-iff res =
      any_iff _
        (λ (rr : ApiResource).
          and_iff _ _ (matches_resource_name_iff rr.name res)
            (api_group_restriction_covers_iff rr.group "*"))
        rrd.spec.restricted_resources

  resource_excluded_iff :
      (res group : String)
      → (is_resource_excluded_for_group rrd res group ≡ true) ↔ ResourceRemoved rrd res group
  unfolding is_resource_excluded_for_group
  resource_excluded_iff res group =
      any_iff _
        (λ (rr : ApiResource).
          and_iff _ _ (matches_resource_name_iff rr.name res)
            (api_group_restriction_covers_iff rr.group group))
        rrd.spec.restricted_resources

  verb_removed_iff :
      (group verb : String)
      → (is_api_group_verb_restricted rrd group verb ≡ true) ↔ GroupVerbRemoved rrd group verb
  unfolding is_api_group_verb_restricted
  verb_removed_iff group verb =
      any_iff _
        (λ (api : RestrictedApiGroup). and_iff _ _ (matches_api_group_iff api.name group) (
          and_iff _ _ (empty_iff api.versions) (
            and_iff _ _ (nonempty_iff api.verbs) (contains_string_or_wildcard_iff api.verbs verb))))
        rrd.spec.restricted_apis

  uncovered_verbs-eq-nil_iff :
      (group : String) (verbs : List String)
      → (uncovered_verbs rrd group verbs ≡ [])
        ↔ All (λ v. Restricts rrd.spec.restricted_verbs v ⊎ GroupVerbRemoved rrd group v) verbs
  unfolding uncovered_verbs
  uncovered_verbs-eq-nil_iff group [] = (λ _. tt, λ _. refl)
  uncovered_verbs-eq-nil_iff group (v ∷ verbs) =
      append-eq-nil_iff
        (iff_trans (report-eq-nil_iff _ _) (
          neither_iff _ _ (contains_string_or_wildcard_iff rrd.spec.restricted_verbs v)
            (verb_removed_iff group v)))
        (uncovered_verbs-eq-nil_iff group verbs)

  check_resource_verbs-eq-nil_iff :
      (rule : ResourceVerbRule) → (check_resource_verbs rrd rule ≡ []) ↔ CombinationRemoved rrd rule
  unfolding check_resource_verbs
  check_resource_verbs-eq-nil_iff rule =
      unless_iff _ (resource_excluded_iff rule.resource rule.api_group) (
        unless_iff _ (group_excluded_iff rule.api_group) (
          iff_trans (report-eq-nil_iff _ _) (
            iff_trans (nonempty-eq-false_iff _)
              (uncovered_verbs-eq-nil_iff rule.api_group rule.verbs))))

  evaluate_role_limits-eq-nil_iff :
      (limits : RoleLimits) → (evaluate_role_limits limits rrd ≡ []) ↔ RolePermitted limits rrd
  unfolding evaluate_role_limits
  evaluate_role_limits-eq-nil_iff limits =
      let (f, g) =
        append-eq-nil_iff
          (iff_trans (report-eq-nil_iff _ _) (
            either_not_iff limits.allow_cluster_roles _
              (eq_iff rrd.spec.target_role "ClusterRole")))
          (append-eq-nil_iff
            (each-eq-nil_iff _
              (λ _ v.
                iff_trans (report-eq-nil_iff _ _)
                  (not_iff _ (contains_string_or_wildcard_iff rrd.spec.restricted_verbs v)))
              limits.forbidden_verbs)
            (append-eq-nil_iff
              (each-eq-nil_iff _
                (λ _ group. iff_trans (report-eq-nil_iff _ _) (not_iff _ (GroupRemoved-iff group)))
                limits.forbidden_api_groups)
              (append-eq-nil_iff
                (each-eq-nil_iff _
                  (λ _ res. iff_trans (report-eq-nil_iff _ _) (not_iff _ (ResourceRemoved-iff res)))
                  limits.forbidden_resources)
                (append-eq-nil_iff
                  (each-eq-nil_iff _ (λ _ rule. check_resource_verbs-eq-nil_iff rule)
                    limits.forbidden_resource_verbs)
                  (evaluate_constrained_impersonation-eq-nil_iff limits rrd))))) in
      (
        λ e.
            let (a, (b, (c, (d, (h, i))))) = f e in
            record {
              cluster_role = a;
              verbs = b;
              groups = c;
              resources = d;
              combinations = h;
              impersonation = i;
            },
        λ r. g (
          r.cluster_role,
          (r.verbs, (r.groups, (r.resources, (r.combinations, r.impersonation)))),
        ),
      )

  evaluate_limits-eq-nil_iff :
      (limits : Option RoleLimits) → (evaluate_limits limits rrd ≡ []) ↔ RoleOk limits rrd
  evaluate_limits-eq-nil_iff none = ground arith
  evaluate_limits-eq-nil_iff (some limits) = evaluate_role_limits-eq-nil_iff limits

cluster_resources_iff :
    (scope : PolicyScope) → (scope_allows_cluster_resources scope ≡ true) ↔ In "*" scope.namespaces
unfolding scope_allows_cluster_resources
cluster_resources_iff scope = contains_iff scope.namespaces "*"

-- `EvaluateRoleDefinitionWithLabels` of a policy and a definition finds no violation exactly when
-- the definition complies with the policy.
pub evaluate_role_definition-eq-nil_iff :
    (sel : Selectors) (lg : Option LabelGetter) (policy : RbacPolicy)
    (rrd : RestrictedRoleDefinition)
    → (evaluate_role_definition_with_labels sel lg (some policy) (some rrd) ≡ [])
      ↔ RoleCompliant sel lg policy rrd
unfolding evaluate_role_definition_with_labels evaluate_role_definition_of
evaluate_role_definition-eq-nil_iff sel lg policy rrd =
    let (f, g) =
      append-eq-nil_iff
        (iff_trans (report-eq-nil_iff _ _) (
          unless_or_iff _ _ (eq_iff rrd.spec.target_role "ClusterRole")
            (cluster_resources_iff policy.spec.applies_to)))
        (append-eq-nil_iff
          (iff_trans (report-eq-nil_iff _ _) (
            neither_iff _ _ (eq_iff rrd.spec.target_namespace "")
              (namespace_in_scope_iff sel lg policy.spec.applies_to rrd.spec.target_namespace)))
          (evaluate_limits-eq-nil_iff rrd policy.spec.role_limits)) in
    (
      λ e. let (a, (b, c)) = f e in record { cluster_scope = a; target_scope = b; limits = c },
      λ r. g (r.cluster_scope, (r.target_scope, r.limits)),
    )

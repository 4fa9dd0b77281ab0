-- ===== src/Policy/Impersonation.antt =====
-- pkg/policy/constrained_impersonation.go: the check of a constrained-impersonation grant.
pub mod Names
pub mod Denylist
pub mod Laws
use auth_operator.Base.{
  ℕ, ◌+◌, ℤ, String, List, Option, none, some, Bool, true, false, not, ◌&&◌, ◌||◌, [], ◌∷◌, ◌++◌,
  ◌==◌, nonempty, is_some, report, if◌then◌else◌, Text, sprintf, plain, extend, str, num, int, each,
  any, contains, exceeds, length, join, has_prefix, has_suffix,
}
use auth_operator.Kube.{PolicyRule}
use auth_operator.Api.Policies.{
  RoleLimits, ResourceVerbRule, ConstrainedImpersonationLimits, NameMatchLimits,
}
use auth_operator.Api.Impersonation.{
  ConstrainedImpersonationSpec, ImpersonationIdentityRule, ImpersonationActionRule,
  legacy_impersonate_verb, build_constrained_impersonation_rules,
}
use auth_operator.Api.Definitions.{RestrictedRoleDefinition}
use auth_operator.Policy.Labels.{Violation}
use auth_operator.Policy.Matcher.{
  matches_any_wildcard, api_group_restriction_covers, matches_resource_name,
  contains_string_or_wildcard,
}

abbrev pub constrained_impersonation_field : Text
constrained_impersonation_field = plain "spec.constrainedImpersonation"

-- The three tests of the loop of `forbiddenResourceVerbViolation`.
unfoldable pub forbids_resource_verb : PolicyRule → String → ResourceVerbRule → Bool
forbids_resource_verb rule verb forbidden =
    matches_any_wildcard forbidden.verbs verb
    && (any (λ g. api_group_restriction_covers forbidden.api_group g || g == "*") rule.api_groups
        && any (λ r. matches_resource_name forbidden.resource r) rule.resources)

-- The first forbidden combination gives the violation.
unfoldable pub forbidden_resource_verb_violation :
    List ResourceVerbRule → PolicyRule → String → List Violation
forbidden_resource_verb_violation [] rule verb = []
forbidden_resource_verb_violation (forbidden ∷ others) rule verb =
    let rest = forbidden_resource_verb_violation others rule verb in
    if forbids_resource_verb rule verb forbidden
    then record {
      field = constrained_impersonation_field;
      message =
          sprintf
            "generated resource+verb combination %q on resource %q (apiGroup %q) is forbidden by roleLimits.forbiddenResourceVerbs"
            (str verb ∷ str forbidden.resource ∷ str forbidden.api_group ∷ []);
    }
      ∷ []
    else rest

unfoldable pub check_generated_verb : RoleLimits → PolicyRule → String → List Violation
check_generated_verb limits rule verb =
    if matches_any_wildcard limits.forbidden_verbs verb
    then record {
      field = constrained_impersonation_field;
      message =
          sprintf "generated verb %q is forbidden by roleLimits.forbiddenVerbs" (str verb ∷ []);
    }
      ∷ []
    else forbidden_resource_verb_violation limits.forbidden_resource_verbs rule verb

-- `evaluateImpersonationVerbDenylist`, by the outcome of building the rules.
unfoldable pub check_generated_rules :
    RoleLimits → String → Option (List PolicyRule) → List Violation
check_generated_rules limits mode none =
    record {
      field = constrained_impersonation_field;
      message =
          sprintf "cannot evaluate grant: unknown constrained impersonation mode %q"
            (str mode ∷ []);
    }
    ∷ []
check_generated_rules limits mode (some generated) =
    each
      (λ _ (rule : PolicyRule). each (λ _ verb. check_generated_verb limits rule verb) rule.verbs)
      generated

unfoldable pub evaluate_impersonation_verb_denylist :
    RoleLimits → ConstrainedImpersonationSpec → List Violation
evaluate_impersonation_verb_denylist limits spec =
    check_generated_rules limits spec.mode (build_constrained_impersonation_rules (some spec))

unfoldable pub evaluate_impersonation_mode_and_resources :
    ConstrainedImpersonationLimits → ConstrainedImpersonationSpec → List Violation
evaluate_impersonation_mode_and_resources limits spec =
    report (nonempty limits.allowed_modes && not (contains limits.allowed_modes spec.mode))
      (record {
        field = extend constrained_impersonation_field ".mode" [];
        message =
            sprintf "mode %q is not allowed by policy; allowed modes: [%s]"
              (str spec.mode ∷ str (join limits.allowed_modes ", ") ∷ []);
      })
    ++ (if nonempty limits.allowed_identity_resources
        then each
            (λ i (rule : ImpersonationIdentityRule).
              report (not (contains limits.allowed_identity_resources rule.resource)) (record {
                field =
                    extend constrained_impersonation_field ".identities[%d].resource" (num i ∷ []);
                message =
                    sprintf "identity resource %q is not allowed by policy; allowed resources: [%s]"
                      (str rule.resource ∷ str (join limits.allowed_identity_resources ", ") ∷ []);
              }))
            spec.identities
        else [])

-- `nameMatchViolation`: the reason of a rejection, `none` where the source returns the empty text.
unfoldable pub first_prefix : String → List String → Option String
first_prefix name [] = none
first_prefix name (p ∷ ps) =
    let rest = first_prefix name ps in if has_prefix name p then some p else rest

unfoldable pub first_suffix : String → List String → Option String
first_suffix name [] = none
first_suffix name (s ∷ ss) =
    let rest = first_suffix name ss in if has_suffix name s then some s else rest

-- The part of `nameMatchViolation` about the allowances.
unfoldable pub allow_violation : NameMatchLimits → String → Option Text
allow_violation limits name =
    let has_allow_list =
      nonempty limits.allowed_names
      || nonempty limits.allowed_prefixes
      || nonempty limits.allowed_suffixes in
    if not has_allow_list
    then none
    else if contains limits.allowed_names name
    then none
    else if is_some (first_prefix name limits.allowed_prefixes)
    then none
    else if is_some (first_suffix name limits.allowed_suffixes)
    then none
    else some (plain "does not match any allowed name, prefix or suffix")

-- The rejection by a forbidden prefix or suffix, or what follows.
abbrev pub deny_or : String → Option String → Option Text → Option Text
deny_or format (some affix) later = some (sprintf format (str affix ∷ []))
deny_or format none later = later

unfoldable pub name_match_violation : NameMatchLimits → String → Option Text
name_match_violation limits name =
    if contains limits.forbidden_names name
    then some (plain "is explicitly forbidden by policy")
    else deny_or "matches the forbidden prefix %q" (first_prefix name limits.forbidden_prefixes) (
        deny_or "matches the forbidden suffix %q" (first_suffix name limits.forbidden_suffixes)
          (allow_violation limits name))

-- `total += len(spec.Identities[i].Names)`
unfoldable pub total_names : List ImpersonationIdentityRule → ℕ
total_names [] = 0
total_names (rule ∷ rules) = length rule.names + total_names rules

unfoldable pub check_max_names : Option ℤ → ℕ → List Violation
check_max_names none total = []
check_max_names (some most) total = report (exceeds total most) (record {
  field = extend constrained_impersonation_field ".identities" [];
  message =
      sprintf "grant allowlists %d identity names, exceeding the policy maximum of %d"
        (num total ∷ int most ∷ []);
})

abbrev pub name_violation : ℕ → ℕ → String → Option Text → List Violation
name_violation i j name none = []
name_violation i j name (some reason) =
    record {
      field =
          extend constrained_impersonation_field ".identities[%d].names[%d]" (num i ∷ num j ∷ []);
      message = extend (sprintf "identity name %q " (str name ∷ [])) reason.format reason.args;
    }
    ∷ []

unfoldable pub check_identity_names :
    Option NameMatchLimits → List ImpersonationIdentityRule → List Violation
check_identity_names none identities = []
check_identity_names (some limits) identities =
    each
      (λ i (rule : ImpersonationIdentityRule).
        each (λ j name. name_violation i j name (name_match_violation limits name)) rule.names)
      identities

unfoldable pub evaluate_impersonation_identity_names :
    ConstrainedImpersonationLimits → ConstrainedImpersonationSpec → List Violation
evaluate_impersonation_identity_names limits spec =
    check_max_names limits.max_identity_names (total_names spec.identities)
    ++ check_identity_names limits.identity_name_limits spec.identities

unfoldable pub evaluate_impersonation_actions :
    ConstrainedImpersonationLimits → ConstrainedImpersonationSpec → List Violation
evaluate_impersonation_actions limits spec =
    if not (nonempty limits.forbidden_action_verbs)
    then []
    else each
        (λ i (action : ImpersonationActionRule).
          each
            (λ j verb. report (matches_any_wildcard limits.forbidden_action_verbs verb) (record {
              field =
                  extend constrained_impersonation_field ".actions[%d].verbs[%d]"
                    (num i ∷ num j ∷ []);
              message =
                  sprintf
                    "action verb %q is forbidden by roleLimits.constrainedImpersonation.forbiddenActionVerbs"
                    (str verb ∷ []);
            }))
            action.verbs)
        spec.actions

unfoldable pub evaluate_impersonation_legacy_fallback :
    ConstrainedImpersonationLimits → RestrictedRoleDefinition → List Violation
evaluate_impersonation_legacy_fallback limits rrd =
    if not limits.forbid_legacy_fallback
    then []
    else if contains_string_or_wildcard rrd.spec.restricted_verbs legacy_impersonate_verb
    then []
    else record {
      field = plain "spec.restrictedVerbs";
      message =
          sprintf
            "policy requires the legacy fallback to be closed: %q must be listed in restrictedVerbs, otherwise a blanket legacy impersonation grant wins by fallback and silently defeats the constrained impersonation grant"
            (str legacy_impersonate_verb ∷ []);
    }
      ∷ []

abbrev pub grant_not_allowed : List Violation
grant_not_allowed =
    record {
      field = constrained_impersonation_field;
      message =
          plain
            "constrained impersonation is not allowed by policy; set roleLimits.constrainedImpersonation.allowed=true to permit it";
    }
    ∷ []

-- The checks of a grant, by the policy's limits on grants.
unfoldable pub check_grant :
    RoleLimits
    → Option ConstrainedImpersonationLimits
    → RestrictedRoleDefinition
    → ConstrainedImpersonationSpec
    → List Violation
check_grant limits none rrd spec = grant_not_allowed
check_grant limits (some ci_limits) rrd spec =
    if not ci_limits.allowed
    then grant_not_allowed
    else evaluate_impersonation_verb_denylist limits spec
      ++ (evaluate_impersonation_mode_and_resources ci_limits spec
          ++ (evaluate_impersonation_identity_names ci_limits spec
              ++ (evaluate_impersonation_actions ci_limits spec
                  ++ evaluate_impersonation_legacy_fallback ci_limits rrd)))

abbrev pub check_if_granted :
    RoleLimits → RestrictedRoleDefinition → Option ConstrainedImpersonationSpec → List Violation
check_if_granted limits rrd none = []
check_if_granted limits rrd (some spec) =
    check_grant limits limits.constrained_impersonation rrd spec

unfoldable pub evaluate_constrained_impersonation :
    RoleLimits → RestrictedRoleDefinition → List Violation
evaluate_constrained_impersonation limits rrd =
    check_if_granted limits rrd rrd.spec.constrained_impersonation

-- ===== src/Policy/RoleRefs.antt =====
-- pkg/policy/evaluator.go: the check of one role reference.
pub mod Laws
use auth_operator.Base.{
  String, List, Option, none, some, Bool, true, false, not, ◌&&◌, ◌||◌, [], ◌∷◌, ◌++◌, nonempty,
  is_some, report, if◌then◌else◌, Text, sprintf, str,
}
use auth_operator.Kube
use auth_operator.Kube.{LabelSelector, Selectors}
use auth_operator.Api.Policies.{RoleRefLimits}
use auth_operator.Policy.Labels.{Violation, matches_selector}
use auth_operator.Policy.Matcher.{matches_any_wildcard}

module _ (sel : Selectors) where
  -- The part of `checkRoleRef` about the forbidden selector.
  unfoldable pub check_forbidden_selector :
      Option LabelSelector → String → Text → Option Kube.Labels → Bool → List Violation
  check_forbidden_selector none ref field_path role_labels selector_enabled = []
  check_forbidden_selector (some selector) ref field_path role_labels selector_enabled =
      if not selector_enabled || not (is_some role_labels)
      then record {
        field = field_path;
        message =
            sprintf "role ref %q cannot be checked against the forbidden role ref label selector"
              (str ref ∷ []);
      }
        ∷ []
      else report (matches_selector sel selector role_labels) (record {
        field = field_path;
        message =
            sprintf "role ref %q matches the forbidden role ref label selector" (str ref ∷ []);
      })

  -- `hasSelectorConfig && roleLabels != nil && matchesSelector(...)`
  unfoldable pub allowed_by_selector : Option LabelSelector → Option Kube.Labels → Bool → Bool
  allowed_by_selector none role_labels selector_enabled = false
  allowed_by_selector (some selector) role_labels selector_enabled =
      selector_enabled && is_some role_labels && matches_selector sel selector role_labels

  unfoldable pub check_role_ref :
      RoleRefLimits → String → Text → Option Kube.Labels → Bool → List Violation
  check_role_ref limits ref field_path role_labels selector_enabled =
      let has_name_config = nonempty limits.allowed_role_refs in
      let has_selector_config = selector_enabled && is_some limits.allowed_role_ref_selector in
      let name_allowed = has_name_config && matches_any_wildcard limits.allowed_role_refs ref in
      let selector_allowed =
        allowed_by_selector limits.allowed_role_ref_selector role_labels selector_enabled in
      report
        (nonempty limits.forbidden_role_refs && matches_any_wildcard limits.forbidden_role_refs ref)
        (record {
          field = field_path;
          message = sprintf "role ref %q is forbidden by policy" (str ref ∷ []);
        })
      ++ (check_forbidden_selector limits.forbidden_role_ref_selector ref field_path role_labels
            selector_enabled
          ++ (if has_name_config || has_selector_config
              then report (not name_allowed && not selector_allowed) (record {
                field = field_path;
                message =
                    sprintf "role ref %q is not allowed by policy (name or label selector)"
                      (str ref ∷ []);
              })
              else record {
                field = field_path;
                message = sprintf "role ref %q is not in the allowed list" (str ref ∷ []);
              }
                ∷ []))

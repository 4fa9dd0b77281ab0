-- ===== src/Policy/Scope.antt =====
-- pkg/policy/matcher.go: the scope that a policy governs.
pub mod Laws
use auth_operator.Base.{
  String, List, Option, none, some, Bool, true, false, not, ◌&&◌, [], ◌∷◌, nonempty, contains,
  if◌then◌else◌, is_some, length, eqb,
}
use auth_operator.Kube.{LabelSelector, Selectors}
use auth_operator.Api.Policies.{PolicyScope}
use auth_operator.Policy.Labels.{LabelGetter, matches_selector}

abbrev pub all_namespaces_scope : String
all_namespaces_scope = "*"

module _ (sel : Selectors) (lg : Option LabelGetter) where
  -- The end of `namespaceInScope`, for a namespace that is not listed.
  unfoldable pub selected_in_scope :
      Bool → Option LabelSelector → Option LabelGetter → String → Bool
  selected_in_scope bare none _ namespace = bare
  selected_in_scope bare (some selector) none namespace = bare
  selected_in_scope bare (some selector) (some getter) namespace =
      let (ns_labels, found) = getter.get_namespace_labels namespace in
      if not found then bare else if matches_selector sel selector ns_labels then true else bare

  unfoldable pub namespace_in_scope : PolicyScope → String → Bool
  namespace_in_scope scope namespace =
      if not (nonempty scope.namespaces) && not (is_some scope.namespace_selector)
      then false
      else let bare_all_namespaces =
          contains scope.namespaces all_namespaces_scope
          && eqb (length scope.namespaces) 1
          && not (is_some scope.namespace_selector) in
        if contains scope.namespaces namespace
        then true
        else selected_in_scope bare_all_namespaces scope.namespace_selector lg namespace

unfoldable pub scope_allows_cluster_resources : PolicyScope → Bool
scope_allows_cluster_resources scope = contains scope.namespaces all_namespaces_scope

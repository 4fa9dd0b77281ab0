-- ===== src/Policy/Namespaces.antt =====
-- pkg/policy/evaluator.go: the limits on the namespaces that a definition targets.
pub mod Laws
pub mod Counted
use auth_operator.Base.{
  ℕ, ℤ, ◌+◌, String, List, Option, none, some, Bool, true, false, not, [], ◌∷◌, ◌++◌, ◌==◌,
  nonempty, contains, report, length, if◌then◌else◌, Text, sprintf, extend, str, num, int, exceeds,
  plain,
}
use auth_operator.Kube.{LabelSelector, Selectors}
use auth_operator.Api.Policies.{NamespaceLimits}
use auth_operator.Api.Definitions.{NamespaceBinding, RestrictedBindDefinition}
use auth_operator.Policy.Labels.{Violation, LabelGetter, Fallible, ok, failed, matches_selector}
use auth_operator.Policy.Matcher.{has_any_prefix}

-- A `map[string]struct{}` as the list of its keys.
abbrev pub insert_name : String → List String → List String
insert_name name seen = if contains seen name then seen else name ∷ seen

-- The check of `MaxTargetNamespaces` against the resolved names.
unfoldable pub check_max_targets : Option ℤ → List String → List Violation
check_max_targets none resolved = []
check_max_targets (some most) resolved = report (exceeds (length resolved) most) (record {
  field = plain "spec.roleBindings";
  message =
      sprintf "exceeds maximum target namespaces: %d > %d" (num (length resolved) ∷ int most ∷ []);
})

module _ (sel : Selectors) (lg : Option LabelGetter) where
  -- The part of `checkNamespace` about the allowed selector.
  unfoldable pub check_namespace_selector :
      Option LabelSelector → Option LabelGetter → String → Text → List Violation
  check_namespace_selector none _ namespace field_path = []
  check_namespace_selector (some selector) none namespace field_path =
      record {
        field = field_path;
        message =
            sprintf "namespace %q cannot be checked against the allowed namespace label selector"
              (str namespace ∷ []);
      }
      ∷ []
  check_namespace_selector (some selector) (some getter) namespace field_path =
      let (ns_labels, found) = getter.get_namespace_labels namespace in
      report (if not found then true else not (matches_selector sel selector ns_labels)) (record {
        field = field_path;
        message =
            sprintf "namespace %q does not match the allowed namespace label selector"
              (str namespace ∷ []);
      })

  unfoldable pub check_namespace : NamespaceLimits → String → Text → List Violation
  check_namespace limits namespace field_path =
      report (contains limits.forbidden_namespaces namespace) (record {
        field = field_path;
        message = sprintf "namespace %q is forbidden by policy" (str namespace ∷ []);
      })
      ++ (report (has_any_prefix limits.forbidden_namespace_prefixes namespace) (record {
        field = field_path;
        message = sprintf "namespace %q matches a forbidden prefix" (str namespace ∷ []);
      })
          ++ check_namespace_selector limits.allowed_namespace_selector lg namespace field_path)

  -- The loop over the names that a selector resolves to; the map of resolved names is passed on.
  unfoldable pub check_resolved :
      NamespaceLimits → Text → List String → List String → List Violation × List String
  check_resolved limits field_path [] seen = ([], seen)
  check_resolved limits field_path (ns ∷ names) seen =
      let (later, seen') = check_resolved limits field_path names (insert_name ns seen) in
      (
        check_namespace limits ns (extend field_path " (resolved: %s)" (str ns ∷ [])) ++ later,
        seen',
      )

  -- The body of the loop over the selectors of one binding, by what the resolver answers.
  unfoldable pub check_answer :
      NamespaceLimits → Text → Fallible (List String) → List String → List Violation × List String
  check_answer limits field_path (failed err) seen = (
    record {
      field = field_path;
      message = sprintf "failed to resolve namespace selector: %v" (str err ∷ []);
    }
        ∷ [],
    seen,
  )
  check_answer limits field_path (ok names) seen = check_resolved limits field_path names seen

  unfoldable pub check_selector :
      NamespaceLimits
      → Option LabelGetter
      → Text
      → LabelSelector
      → List String
      → List Violation × List String
  check_selector limits none field_path selector seen = (
    record {
      field = field_path;
      message = plain "namespace selector cannot be evaluated without a label resolver";
    }
        ∷ [],
    seen,
  )
  check_selector limits (some getter) field_path selector seen =
      check_answer limits field_path (getter.list_namespaces_by_selector selector) seen

  unfoldable pub check_selectors :
      NamespaceLimits → ℕ → ℕ → List LabelSelector → List String → List Violation × List String
  check_selectors limits i j [] seen = ([], seen)
  check_selectors limits i j (selector ∷ selectors) seen =
      let field_path = sprintf "spec.roleBindings[%d].namespaceSelector[%d]" (num i ∷ num j ∷ []) in
      let (here, seen') = check_selector limits lg field_path selector seen in
      let (later, seen'') = check_selectors limits i (j + 1) selectors seen' in
      (here ++ later, seen'')

  unfoldable pub check_binding :
      NamespaceLimits → ℕ → NamespaceBinding → List String → List Violation × List String
  check_binding limits i nb seen =
      if not (nb.namespace == "")
      then (
        check_namespace limits nb.namespace
            (sprintf "spec.roleBindings[%d].namespace" (num i ∷ [])),
        insert_name nb.namespace seen,
      )
      else check_selectors limits i 0 nb.namespace_selector seen

  unfoldable pub check_bindings :
      NamespaceLimits → ℕ → List NamespaceBinding → List String → List Violation × List String
  check_bindings limits i [] seen = ([], seen)
  check_bindings limits i (nb ∷ bindings) seen =
      let (here, seen') = check_binding limits i nb seen in
      let (later, seen'') = check_bindings limits (i + 1) bindings seen' in (here ++ later, seen'')

  unfoldable pub evaluate_namespace_limits :
      NamespaceLimits → RestrictedBindDefinition → List Violation
  evaluate_namespace_limits limits rbd =
      let (violations, resolved) = check_bindings limits 0 rbd.spec.role_bindings [] in
      violations ++ check_max_targets limits.max_target_namespaces resolved

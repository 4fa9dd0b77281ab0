-- ===== src/Policy/Namespaces/Counted.antt =====
-- Which namespaces are counted against the maximum: the distinct targets of all bindings.
use auth_operator.Base.{
  ℕ, ◌+◌, String, List, Option, none, some, not, [], ◌∷◌, ◌++◌, ◌==◌, All, In, Text, ◌≡◌, refl, sym,
  ap, ◌∙◌, ◌↔◌, inl, inr, arith, append-eq-nil_iff, report-eq-nil_iff, iff_trans, if◌then◌else◌,
  length, Exceeds, exceeds-eq-false_iff, ℤ, Bool-cases,
}
use auth_operator.Kube.{LabelSelector, Selectors}
use auth_operator.Api.Policies.{NamespaceLimits}
use auth_operator.Api.Definitions.{NamespaceBinding, RestrictedBindDefinition}
use auth_operator.Policy.Labels.{LabelGetter, Fallible, ok, failed, names_of, resolved}
use auth_operator.Policy.Namespaces.{
  insert_name, check_resolved, check_answer, check_selector, check_selectors, check_binding,
  check_bindings, check_max_targets, evaluate_namespace_limits,
}
use auth_operator.Policy.Namespaces.Laws.{BindingPermitted, check_bindings-eq-nil_iff}

-- The namespaces that a binding targets, in order and with repetitions.
abbrev pub selected_targets : Option LabelGetter → List LabelSelector → List String
selected_targets lg [] = []
selected_targets lg (s ∷ selectors) = resolved lg s ++ selected_targets lg selectors

abbrev pub binding_targets : Option LabelGetter → NamespaceBinding → List String
binding_targets lg nb =
    if not (nb.namespace == "")
    then nb.namespace ∷ []
    else selected_targets lg nb.namespace_selector

abbrev pub targets : Option LabelGetter → List NamespaceBinding → List String
targets lg [] = []
targets lg (nb ∷ bindings) = binding_targets lg nb ++ targets lg bindings

abbrev pub add_all : List String → List String → List String
add_all [] seen = seen
add_all (n ∷ names) seen = add_all names (insert_name n seen)

add_all-append : (xs ys seen : List String) → add_all (xs ++ ys) seen ≡ add_all ys (add_all xs seen)
add_all-append [] ys seen = refl
add_all-append (x ∷ xs) ys seen = add_all-append xs ys (insert_name x seen)

abbrev pub Distinct : List String → Type 0
Distinct [] = Unit
Distinct (x ∷ xs) = (¬ In x xs) × Distinct xs

module _ (sel : Selectors) (lg : Option LabelGetter) (limits : NamespaceLimits) where
  check_resolved-seen :
      (path : Text) (names seen : List String)
      → (check_resolved sel lg limits path names seen).1 ≡ add_all names seen
  unfolding check_resolved
  check_resolved-seen path [] seen = refl
  check_resolved-seen path (n ∷ names) seen = check_resolved-seen path names (insert_name n seen)

  check_answer-seen :
      (path : Text) (answer : Fallible (List String)) (seen : List String)
      → (check_answer sel lg limits path answer seen).1 ≡ add_all (names_of answer) seen
  unfolding check_answer
  check_answer-seen path (failed error) seen = refl
  check_answer-seen path (ok names) seen = check_resolved-seen path names seen

  check_selector-seen :
      (getter : Option LabelGetter) (path : Text) (s : LabelSelector) (seen : List String)
      → (check_selector sel lg limits getter path s seen).1 ≡ add_all (resolved getter s) seen
  unfolding check_selector
  check_selector-seen none path s seen = refl
  check_selector-seen (some g) path s seen =
      check_answer-seen path (g.list_namespaces_by_selector s) seen

  check_selectors-seen :
      (i j : ℕ) (selectors : List LabelSelector) (seen : List String)
      → (check_selectors sel lg limits i j selectors seen).1
        ≡ add_all (selected_targets lg selectors) seen
  unfolding check_selectors
  check_selectors-seen i j [] seen = refl
  check_selectors-seen i j (s ∷ selectors) seen =
      check_selectors-seen i (j + 1) selectors _
      ∙ ap (add_all (selected_targets lg selectors)) (check_selector-seen lg _ s seen)
      ∙ sym (add_all-append (resolved lg s) (selected_targets lg selectors) seen)

  check_binding-seen :
      (i : ℕ) (nb : NamespaceBinding) (seen : List String)
      → (check_binding sel lg limits i nb seen).1 ≡ add_all (binding_targets lg nb) seen
  unfolding check_binding
  check_binding-seen i nb seen = elim (Bool-cases (nb.namespace == "")) [
    | inl h ↦ rw h (check_selectors-seen i 0 nb.namespace_selector seen)
    | inr h ↦ rw h
  ]

  check_bindings-seen :
      (i : ℕ) (bindings : List NamespaceBinding) (seen : List String)
      → (check_bindings sel lg limits i bindings seen).1 ≡ add_all (targets lg bindings) seen
  unfolding check_bindings
  check_bindings-seen i [] seen = refl
  check_bindings-seen i (nb ∷ bindings) seen =
      check_bindings-seen (i + 1) bindings _
      ∙ ap (add_all (targets lg bindings)) (check_binding-seen i nb seen)
      ∙ sym (add_all-append (binding_targets lg nb) (targets lg bindings) seen)

abbrev pub distinct_targets : Option LabelGetter → List NamespaceBinding → List String
distinct_targets lg bindings = add_all (targets lg bindings) []

abbrev pub WithinMax : Option ℤ → List String → Type 0
WithinMax none names = Unit
WithinMax (some most) names = ¬ Exceeds (length names) most

check_max_targets-eq-nil_iff :
    (most : Option ℤ) (names : List String)
    → (check_max_targets most names ≡ []) ↔ WithinMax most names
unfolding check_max_targets
check_max_targets-eq-nil_iff none names = ground arith
check_max_targets-eq-nil_iff (some most) names =
    iff_trans (report-eq-nil_iff _ _) (exceeds-eq-false_iff (length names) most)

pub evaluate_namespace_limits-eq-nil_iff :
    (sel : Selectors) (lg : Option LabelGetter) (limits : NamespaceLimits)
    (rbd : RestrictedBindDefinition)
    → (evaluate_namespace_limits sel lg limits rbd ≡ []) ↔ (
        All (BindingPermitted sel lg limits) rbd.spec.role_bindings
        × WithinMax limits.max_target_namespaces (distinct_targets lg rbd.spec.role_bindings))
unfolding evaluate_namespace_limits
evaluate_namespace_limits-eq-nil_iff sel lg limits rbd =
    append-eq-nil_iff (check_bindings-eq-nil_iff sel lg limits 0 rbd.spec.role_bindings []) (
      rw (check_bindings-seen sel lg limits 0 rbd.spec.role_bindings []) (
        check_max_targets-eq-nil_iff limits.max_target_namespaces
          (distinct_targets lg rbd.spec.role_bindings)))

-- ===== src/Policy/Namespaces/Laws.antt =====
-- When the targeted namespaces pass the limits, and which of them are counted.
use auth_operator.Base.{
  ℕ, ◌+◌, String, List, Option, none, some, [], ◌∷◌, ◌==◌, eq_iff, All, In, contains-eq-false_iff,
  Text, ◌≡◌, ◌≢◌, ◌↔◌, inl, inr, arith, append-eq-nil_iff, report-eq-nil_iff, iff_trans, Bool-cases,
  eq-false_iff,
}
use auth_operator.Kube.{LabelSelector, Selectors}
use auth_operator.Api.Policies.{NamespaceLimits}
use auth_operator.Api.Definitions.{NamespaceBinding}
use auth_operator.Policy.Labels.{LabelGetter, Fallible, ok, failed, AllOk, AllResolved}
use auth_operator.Policy.Matcher.Glob.{StartsWith}
use auth_operator.Policy.Matcher.Names.{has_any_prefix-eq-false_iff}
use auth_operator.Policy.Scope.Laws.{SelectedBy}
use auth_operator.Policy.Namespaces.{
  insert_name, check_namespace_selector, check_namespace, check_resolved, check_answer,
  check_selector, check_selectors, check_binding, check_bindings,
}

module _ (sel : Selectors) (lg : Option LabelGetter) where
  abbrev pub SelectedIfLimited : Option LabelSelector → String → Type 0
  SelectedIfLimited none namespace = Unit
  SelectedIfLimited (some selector) namespace = SelectedBy sel lg selector lg namespace

  -- The namespace is not forbidden by name or prefix, and selected where a selector is given.
  abbrev pub NamespacePermitted : NamespaceLimits → String → Type 0
  NamespacePermitted limits namespace =
      (¬ In namespace limits.forbidden_namespaces)
      × (All (λ p. ¬ StartsWith p namespace) limits.forbidden_namespace_prefixes
          × SelectedIfLimited limits.allowed_namespace_selector namespace)

  -- A binding with a namespace targets that one; any other targets all that its selectors name.
  abbrev pub BindingPermitted : NamespaceLimits → NamespaceBinding → Type 0
  BindingPermitted limits nb =
      (nb.namespace ≢ "" → NamespacePermitted limits nb.namespace)
      × (nb.namespace ≡ "" → All (AllResolved lg (NamespacePermitted limits)) nb.namespace_selector)

check_namespace_selector_iff :
    (sel : Selectors) (lg : Option LabelGetter) (s : Option LabelSelector) (ns : String)
    (path : Text)
    → (check_namespace_selector sel lg s lg ns path ≡ []) ↔ SelectedIfLimited sel lg s ns
unfolding check_namespace_selector
check_namespace_selector_iff sel lg none ns path = ground arith
check_namespace_selector_iff sel none (some s) ns path = ground arith
check_namespace_selector_iff sel (some g) (some s) ns path = ground arith

module _ (sel : Selectors) (lg : Option LabelGetter) (limits : NamespaceLimits) where
  -- `checkNamespace` finds no violation exactly when the namespace is neither forbidden by name nor
  -- by prefix and, where a selector is given, its labels are known and selected; without a label
  -- getter they are not known, so that the selector is a violation.
  pub check_namespace-eq-nil_iff :
      (ns : String) (path : Text)
      → (check_namespace sel lg limits ns path ≡ []) ↔ NamespacePermitted sel lg limits ns
  unfolding check_namespace
  check_namespace-eq-nil_iff ns path =
      append-eq-nil_iff
        (iff_trans (report-eq-nil_iff _ _) (contains-eq-false_iff limits.forbidden_namespaces ns))
        (append-eq-nil_iff
          (iff_trans (report-eq-nil_iff _ _)
            (has_any_prefix-eq-false_iff limits.forbidden_namespace_prefixes ns))
          (check_namespace_selector_iff sel lg limits.allowed_namespace_selector ns path))

  check_resolved-eq-nil_iff :
      (path : Text) (names seen : List String)
      → ((check_resolved sel lg limits path names seen).0 ≡ [])
        ↔ All (NamespacePermitted sel lg limits) names
  unfolding check_resolved
  check_resolved-eq-nil_iff path [] seen = ground arith
  check_resolved-eq-nil_iff path (ns ∷ names) seen =
      append-eq-nil_iff (check_namespace-eq-nil_iff ns _)
        (check_resolved-eq-nil_iff path names (insert_name ns seen))

module _ (sel : Selectors) (lg : Option LabelGetter) (limits : NamespaceLimits) where
  check_answer-eq-nil_iff :
      (path : Text) (answer : Fallible (List String)) (seen : List String)
      → ((check_answer sel lg limits path answer seen).0 ≡ [])
        ↔ AllOk (NamespacePermitted sel lg limits) answer
  unfolding check_answer
  check_answer-eq-nil_iff path (failed error) seen = ground arith
  check_answer-eq-nil_iff path (ok names) seen =
      check_resolved-eq-nil_iff sel lg limits path names seen

  check_selector-eq-nil_iff :
      (getter : Option LabelGetter) (path : Text) (s : LabelSelector) (seen : List String)
      → ((check_selector sel lg limits getter path s seen).0 ≡ [])
        ↔ AllResolved getter (NamespacePermitted sel lg limits) s
  unfolding check_selector
  check_selector-eq-nil_iff none path s seen = ground arith
  check_selector-eq-nil_iff (some g) path s seen =
      check_answer-eq-nil_iff path (g.list_namespaces_by_selector s) seen

  check_selectors-eq-nil_iff :
      (i j : ℕ) (selectors : List LabelSelector) (seen : List String)
      → ((check_selectors sel lg limits i j selectors seen).0 ≡ [])
        ↔ All (AllResolved lg (NamespacePermitted sel lg limits)) selectors
  unfolding check_selectors
  check_selectors-eq-nil_iff i j [] seen = ground arith
  check_selectors-eq-nil_iff i j (s ∷ selectors) seen =
      append-eq-nil_iff (check_selector-eq-nil_iff lg _ s seen)
        (check_selectors-eq-nil_iff i (j + 1) selectors _)

  check_binding-eq-nil_iff :
      (i : ℕ) (nb : NamespaceBinding) (seen : List String)
      → ((check_binding sel lg limits i nb seen).0 ≡ []) ↔ BindingPermitted sel lg limits nb
  unfolding check_binding
  check_binding-eq-nil_iff i nb seen = elim (Bool-cases (nb.namespace == "")) [
    | inl h ↦
        let empty = (eq_iff nb.namespace "").0 h in
        let (f, g) = check_selectors-eq-nil_iff i 0 nb.namespace_selector seen in
        rw h (λ e. (λ n. absurd (n empty), λ _. f e), λ p. g (p.1 empty))
    | inr h ↦
        let named = (eq-false_iff _ (eq_iff nb.namespace "")).0 h in
        let (f, g) = check_namespace-eq-nil_iff sel lg limits nb.namespace _ in
        rw h (λ e. (λ _. f e, λ n. absurd (named n)), λ p. g (p.0 named))
  ]

  pub check_bindings-eq-nil_iff :
      (i : ℕ) (bindings : List NamespaceBinding) (seen : List String)
      → ((check_bindings sel lg limits i bindings seen).0 ≡ [])
        ↔ All (BindingPermitted sel lg limits) bindings
  unfolding check_bindings
  check_bindings-eq-nil_iff i [] seen = ground arith
  check_bindings-eq-nil_iff i (nb ∷ bindings) seen =
      append-eq-nil_iff (check_binding-eq-nil_iff i nb seen)
        (check_bindings-eq-nil_iff (i + 1) bindings _)

-- ===== src/Policy/Bindings/Laws.antt =====
-- When the role references of a definition pass the limits.
use auth_operator.Base.{
  ℕ, String, List, Option, none, some, Bool, true, false, not, ◌&&◌, [], ◌∷◌, ◌++◌, ◌==◌, eq_iff,
  All, nonempty, is_some, report, Text, ◌≡◌, ◌≢◌, refl, ◌↔◌, ◌⊎◌, inl, inr, arith,
  append-eq-nil_iff, if◌then◌else◌, Bool-cases, eq-false_iff, each-eq-nil_iff, regrouped-eq-nil_iff,
}
use auth_operator.Kube.{LabelSelector, Selectors}
use auth_operator.Api.Policies.{RoleRefLimits, BindingLimits, NamespaceLimits}
use auth_operator.Api.Definitions.{NamespaceBinding, RestrictedBindDefinition}
use auth_operator.Policy.Labels.{Violation, LabelGetter, Fallible, ok, failed, AllOk}
use auth_operator.Policy.RoleRefs.Laws.{RoleRefPermitted, check_role_ref-eq-nil_iff}
use auth_operator.Policy.Namespaces.Laws.{BindingPermitted}
use auth_operator.Policy.Namespaces.Counted.{
  WithinMax, distinct_targets, evaluate_namespace_limits-eq-nil_iff,
}
use auth_operator.Policy.Bindings.{
  restricted_bind_cluster_role_refs, cluster_role_labels, role_labels_in, check_cluster_role_refs,
  evaluate_cluster_role_binding_limits, check_ref_in_answer, check_unplaced_role_ref,
  check_binding_role_ref, check_binding_role_refs, check_role_binding, evaluate_role_binding_limits,
  evaluate_if_limited, evaluate_binding_limits, no_cluster_role_limits, no_role_limits,
  cluster_role_ref_path,
}

module _ (sel : Selectors) (lg : Option LabelGetter) where
  -- References need limits, and each one must be permitted by them.
  abbrev pub ClusterRefsPermitted : Option RoleRefLimits → List String → Type 0
  ClusterRefsPermitted none refs = refs ≡ []
  ClusterRefsPermitted (some limits) refs =
      All (λ ref. RoleRefPermitted sel limits ref (cluster_role_labels lg ref) (is_some lg)) refs

  -- A Role reference with no namespace is looked up wherever the selectors lead; where they lead
  -- nowhere, its labels are unknown.
  abbrev pub UnplacedRefPermitted :
      RoleRefLimits → Option LabelGetter → List LabelSelector → String → Type 0
  UnplacedRefPermitted limits (some getter) (s ∷ selectors) ref =
      All
        (λ selector.
          AllOk (λ ns. RoleRefPermitted sel limits ref (getter.get_role_labels ns ref).0 true)
            (getter.list_namespaces_by_selector selector))
        (s ∷ selectors)
  UnplacedRefPermitted limits getter selectors ref =
      RoleRefPermitted sel limits ref none (is_some getter)

  abbrev pub RoleRefAtPermitted : RoleRefLimits → NamespaceBinding → String → Type 0
  RoleRefAtPermitted limits nb ref =
      (nb.namespace ≢ ""
        → RoleRefPermitted sel limits ref (role_labels_in lg nb.namespace ref) (is_some lg))
      × (nb.namespace ≡ "" → UnplacedRefPermitted limits lg nb.namespace_selector ref)

  abbrev pub RoleRefsPermitted : Option RoleRefLimits → NamespaceBinding → Type 0
  RoleRefsPermitted none nb = nb.role_refs ≡ []
  RoleRefsPermitted (some limits) nb = All (RoleRefAtPermitted limits nb) nb.role_refs

  abbrev pub TargetsPermitted : Option NamespaceLimits → List NamespaceBinding → Type 0
  TargetsPermitted none bindings = Unit
  TargetsPermitted (some limits) bindings =
      All (BindingPermitted sel lg limits) bindings
      × WithinMax limits.max_target_namespaces (distinct_targets lg bindings)

  pub record BindingsPermitted (limits : BindingLimits) (rbd : RestrictedBindDefinition)
      : Type 0 where
    pub cluster_wide :
        (restricted_bind_cluster_role_refs rbd.spec.cluster_role_bindings ≡ [])
        ⊎ ((limits.allow_cluster_role_bindings ≡ true)
            × ClusterRefsPermitted limits.cluster_role_binding_limits
                (restricted_bind_cluster_role_refs rbd.spec.cluster_role_bindings))
    pub namespaced :
        All
          (λ (nb : NamespaceBinding).
            ClusterRefsPermitted limits.cluster_role_binding_limits nb.cluster_role_refs
            × RoleRefsPermitted limits.role_binding_limits nb)
          rbd.spec.role_bindings
    pub targets : TargetsPermitted limits.target_namespace_limits rbd.spec.role_bindings

module _ (sel : Selectors) (lg : Option LabelGetter) where
  check_cluster_role_refs-eq-nil_iff :
      (limits : RoleRefLimits) (path : ℕ → Text) (refs : List String)
      → (check_cluster_role_refs sel lg (some limits) path refs ≡ [])
        ↔ ClusterRefsPermitted sel lg (some limits) refs
  unfolding check_cluster_role_refs
  check_cluster_role_refs-eq-nil_iff limits path refs =
      each-eq-nil_iff _ (λ i ref. check_role_ref-eq-nil_iff sel limits ref (path i) _ _) refs

  -- The report about missing limits, and the references under the limits.
  cluster_refs-eq-nil_iff :
      (limits : Option RoleRefLimits) (path : ℕ → Text) (refs : List String) (v : Violation)
      → ((report (not (is_some limits) && nonempty refs) v
            ++ check_cluster_role_refs sel lg limits path refs)
          ≡ [])
        ↔ ClusterRefsPermitted sel lg limits refs
  unfolding check_cluster_role_refs
  cluster_refs-eq-nil_iff none path [] v = ground arith
  cluster_refs-eq-nil_iff none path (r ∷ refs) v = ground arith
  cluster_refs-eq-nil_iff (some limits) path refs v =
      check_cluster_role_refs-eq-nil_iff limits path refs

  check_ref_in_answer-eq-nil_iff :
      (limits : RoleRefLimits) (getter : LabelGetter) (ref : String) (path : Text) (i k : ℕ)
      (answer : Fallible (List String))
      → (check_ref_in_answer sel lg limits getter ref path i k answer ≡ [])
        ↔ AllOk
            (λ ns. RoleRefPermitted sel limits ref (getter.get_role_labels ns ref).0 true)
            answer
  unfolding check_ref_in_answer
  check_ref_in_answer-eq-nil_iff limits getter ref path i k (failed error) = ground arith
  check_ref_in_answer-eq-nil_iff limits getter ref path i k (ok names) =
      each-eq-nil_iff _ (λ _ ns. check_role_ref-eq-nil_iff sel limits ref _ _ _) names

  check_unplaced_role_ref-eq-nil_iff :
      (limits : RoleRefLimits) (getter : Option LabelGetter) (i : ℕ)
      (selectors : List LabelSelector) (ref : String) (path : Text)
      → (check_unplaced_role_ref sel lg limits getter i selectors ref path ≡ [])
        ↔ UnplacedRefPermitted sel lg limits getter selectors ref
  unfolding check_unplaced_role_ref
  check_unplaced_role_ref-eq-nil_iff limits (some g) i (s ∷ selectors) ref path =
      each-eq-nil_iff _
        (λ k selector.
          check_ref_in_answer-eq-nil_iff limits g ref path i k
            (g.list_namespaces_by_selector selector))
        (s ∷ selectors)
  check_unplaced_role_ref-eq-nil_iff limits getter i selectors ref path =
      check_role_ref-eq-nil_iff sel limits ref path none _

  check_binding_role_ref-eq-nil_iff :
      (limits : RoleRefLimits) (i : ℕ) (nb : NamespaceBinding) (j : ℕ) (ref : String)
      → (check_binding_role_ref sel lg limits i nb j ref ≡ [])
        ↔ RoleRefAtPermitted sel lg limits nb ref
  unfolding check_binding_role_ref
  check_binding_role_ref-eq-nil_iff limits i nb j ref = elim (Bool-cases (nb.namespace == "")) [
    | inl h ↦
        let empty = (eq_iff nb.namespace "").0 h in
        let (f, g) = check_unplaced_role_ref-eq-nil_iff limits lg i nb.namespace_selector ref _ in
        rw h (λ e. (λ n. absurd (n empty), λ _. f e), λ p. g (p.1 empty))
    | inr h ↦
        let named = (eq-false_iff _ (eq_iff nb.namespace "")).0 h in
        let (f, g) =
          check_role_ref-eq-nil_iff sel limits ref _ (role_labels_in lg nb.namespace ref)
            (is_some lg) in
        rw h (λ e. (λ _. f e, λ n. absurd (named n)), λ p. g (p.0 named))
  ]

  role_refs-eq-nil_iff :
      (limits : Option RoleRefLimits) (i : ℕ) (nb : NamespaceBinding) (v : Violation)
      → ((report (not (is_some limits) && nonempty nb.role_refs) v
            ++ check_binding_role_refs sel lg limits i nb)
          ≡ [])
        ↔ RoleRefsPermitted sel lg limits nb
  unfolding check_binding_role_refs
  role_refs-eq-nil_iff none i nb v = unlimited nb.role_refs
    where
      unlimited : (refs : List String) → ((report (nonempty refs) v ++ []) ≡ []) ↔ (refs ≡ [])
      unlimited [] = ground arith
      unlimited (r ∷ refs) = ground arith
  role_refs-eq-nil_iff (some limits) i nb v =
      each-eq-nil_iff _ (check_binding_role_ref-eq-nil_iff limits i nb) nb.role_refs

  check_role_binding-eq-nil_iff :
      (limits : BindingLimits) (i : ℕ) (nb : NamespaceBinding)
      → (check_role_binding sel lg limits i nb ≡ []) ↔ (
          ClusterRefsPermitted sel lg limits.cluster_role_binding_limits nb.cluster_role_refs
          × RoleRefsPermitted sel lg limits.role_binding_limits nb)
  unfolding check_role_binding
  check_role_binding-eq-nil_iff limits i nb =
      regrouped-eq-nil_iff
        (report (not (is_some limits.cluster_role_binding_limits) && nonempty nb.cluster_role_refs)
          (no_cluster_role_limits i))
        (report (not (is_some limits.role_binding_limits) && nonempty nb.role_refs)
          (no_role_limits i))
        (check_cluster_role_refs sel lg limits.cluster_role_binding_limits (cluster_role_ref_path i)
          nb.cluster_role_refs)
        (check_binding_role_refs sel lg limits.role_binding_limits i nb)
        (cluster_refs-eq-nil_iff limits.cluster_role_binding_limits (cluster_role_ref_path i)
          nb.cluster_role_refs (no_cluster_role_limits i))
        (role_refs-eq-nil_iff limits.role_binding_limits i nb (no_role_limits i))

  cluster_wide-eq-nil_iff :
      (allow : Bool) (limits : Option RoleRefLimits) (path : ℕ → Text) (refs : List String)
      (v w : Violation)
      → ((report (not allow && nonempty refs) v
            ++ (report (allow && not (is_some limits) && nonempty refs) w
                ++ (if allow then check_cluster_role_refs sel lg limits path refs else [])))
          ≡ [])
        ↔ ((refs ≡ []) ⊎ ((allow ≡ true) × ClusterRefsPermitted sel lg limits refs))
  cluster_wide-eq-nil_iff false limits path [] v w = ground arith
  cluster_wide-eq-nil_iff false limits path (r ∷ refs) v w = ground arith
  cluster_wide-eq-nil_iff true limits path refs v w =
      let (f, g) = cluster_refs-eq-nil_iff limits path refs w in
      (λ e. inr (refl, f e), λ h. elim h [ inl e ↦ g (no_refs limits refs e) | inr k ↦ g k.1 ])
    where
      no_refs :
          (limits : Option RoleRefLimits) (refs : List String)
          → refs ≡ []
          → ClusterRefsPermitted sel lg limits refs
      no_refs none refs e = e
      no_refs (some l) refs e = rw e tt

  evaluate_if_limited-eq-nil_iff :
      (limits : Option NamespaceLimits) (rbd : RestrictedBindDefinition)
      → (evaluate_if_limited sel lg limits rbd ≡ [])
        ↔ TargetsPermitted sel lg limits rbd.spec.role_bindings
  evaluate_if_limited-eq-nil_iff none rbd = ground arith
  evaluate_if_limited-eq-nil_iff (some limits) rbd =
      evaluate_namespace_limits-eq-nil_iff sel lg limits rbd

-- `evaluateBindingLimits` finds no violation exactly when the bindings are permitted.
pub evaluate_binding_limits-eq-nil_iff :
    (sel : Selectors) (lg : Option LabelGetter) (limits : BindingLimits)
    (rbd : RestrictedBindDefinition)
    → (evaluate_binding_limits sel lg limits rbd ≡ []) ↔ BindingsPermitted sel lg limits rbd
unfolding evaluate_binding_limits evaluate_cluster_role_binding_limits evaluate_role_binding_limits
evaluate_binding_limits-eq-nil_iff sel lg limits rbd =
    let (f, g) =
      append-eq-nil_iff
        (cluster_wide-eq-nil_iff sel lg limits.allow_cluster_role_bindings
          limits.cluster_role_binding_limits _
          (restricted_bind_cluster_role_refs rbd.spec.cluster_role_bindings) _ _)
        (append-eq-nil_iff
          (each-eq-nil_iff _ (check_role_binding-eq-nil_iff sel lg limits) rbd.spec.role_bindings)
          (evaluate_if_limited-eq-nil_iff sel lg limits.target_namespace_limits rbd)) in
    (
      λ e. let (a, (b, c)) = f e in record { cluster_wide = a; namespaced = b; targets = c },
      λ r. g (r.cluster_wide, (r.namespaced, r.targets)),
    )

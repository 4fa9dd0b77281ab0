-- ===== src/Policy/Bind/Compliance.antt =====
-- When a RestrictedBindDefinition complies with its policy.
use auth_operator.Base.{
  ℕ, String, List, Option, none, some, Bool, true, false, not, ◌&&◌, ◌||◌, [], ◌∷◌, ◌==◌, eq_iff,
  All, In, nonempty, Text, ◌≡◌, ◌≢◌, refl, ◌↔◌, ◌⊎◌, inl, inr, arith, contains_iff, any,
  append-eq-nil_iff, report-eq-nil_iff, iff_trans, if◌then◌else◌, Bool-cases, eq-false_iff,
  each-eq-nil_iff,
}
use auth_operator.Kube.{LabelSelector, Selectors, Subject}
use auth_operator.Api.Policies.{PolicyScope, BindingLimits, SubjectLimits, RbacPolicy}
use auth_operator.Api.Definitions.{NamespaceBinding, RestrictedBindDefinition}
use auth_operator.Policy.Labels.{LabelGetter, Fallible, ok, failed, AllOk, AllResolved}
use auth_operator.Policy.Scope.{namespace_in_scope, scope_allows_cluster_resources}
use auth_operator.Policy.Scope.Laws.{InScope, namespace_in_scope_iff}
use auth_operator.Policy.Subjects.Laws.{SubjectPermitted, evaluate_subject_limits-eq-nil_iff}
use auth_operator.Policy.Bindings.{restricted_bind_cluster_role_refs, rbd_has_role_refs}
use auth_operator.Policy.Bindings.Laws.{BindingsPermitted, evaluate_binding_limits-eq-nil_iff}
use auth_operator.Policy.Bind.{
  check_answer_scope, check_selector_scope, check_binding_scope, check_subject_scope,
  check_binding_limits, check_subject_limits, evaluate_bind_definition_of, evaluate_bind_definition,
}

-- The definition refers to no role at all.
abbrev pub NoRoleRefs : RestrictedBindDefinition → Type 0
NoRoleRefs rbd =
    (restricted_bind_cluster_role_refs rbd.spec.cluster_role_bindings ≡ [])
    × All (λ (nb : NamespaceBinding). (nb.cluster_role_refs ≡ []) × (nb.role_refs ≡ []))
        rbd.spec.role_bindings

module _ (sel : Selectors) (lg : Option LabelGetter) where
  -- Every namespace that a binding names or selects lies in the policy's scope.
  abbrev pub BindingInScope : PolicyScope → NamespaceBinding → Type 0
  BindingInScope scope nb =
      ((nb.namespace ≡ "") ⊎ InScope sel lg scope nb.namespace)
      × All (AllResolved lg (InScope sel lg scope)) nb.namespace_selector

  abbrev pub SubjectInScope : PolicyScope → Subject → Type 0
  SubjectInScope scope s =
      s.kind ≡ "ServiceAccount" → s.namespace ≢ "" → InScope sel lg scope s.namespace

  abbrev pub BindingsOk : Option BindingLimits → RestrictedBindDefinition → Type 0
  BindingsOk none rbd = NoRoleRefs rbd
  BindingsOk (some limits) rbd = BindingsPermitted sel lg limits rbd

  abbrev pub SubjectsOk : Option SubjectLimits → List Subject → Type 0
  SubjectsOk none subjects = subjects ≡ []
  SubjectsOk (some limits) subjects = All (SubjectPermitted sel lg limits) subjects

  -- What a policy demands of a definition.
  pub record BindCompliant (policy : RbacPolicy) (rbd : RestrictedBindDefinition) : Type 0 where
    pub cluster_scope :
        (restricted_bind_cluster_role_refs rbd.spec.cluster_role_bindings ≡ [])
        ⊎ In "*" policy.spec.applies_to.namespaces
    pub binding_scope : All (BindingInScope policy.spec.applies_to) rbd.spec.role_bindings
    pub subject_scope : All (SubjectInScope policy.spec.applies_to) rbd.spec.subjects
    pub bindings : BindingsOk policy.spec.binding_limits rbd
    pub subjects : SubjectsOk policy.spec.subject_limits rbd.spec.subjects

cluster_scope_iff :
    (refs : List String) (scope : PolicyScope)
    → ((nonempty refs && not (scope_allows_cluster_resources scope)) ≡ false)
      ↔ ((refs ≡ []) ⊎ In "*" scope.namespaces)
unfolding scope_allows_cluster_resources
cluster_scope_iff [] scope = ground arith
cluster_scope_iff (r ∷ refs) scope = ground (arith, contains_iff scope.namespaces "*")

module _ (sel : Selectors) (lg : Option LabelGetter) (scope : PolicyScope) where
  InScope-iff :
      (ns : String) → (not (namespace_in_scope sel lg scope ns) ≡ false) ↔ InScope sel lg scope ns
  InScope-iff ns =
      let (f, g) = namespace_in_scope_iff sel lg scope ns in
      (λ e. f (ground arith), λ p. let t : namespace_in_scope sel lg scope ns ≡ true = g p in rw t)

  check_answer_scope-eq-nil_iff :
      (path : Text) (answer : Fallible (List String))
      → (check_answer_scope sel lg scope path answer ≡ []) ↔ AllOk (InScope sel lg scope) answer
  unfolding check_answer_scope
  check_answer_scope-eq-nil_iff path (failed error) = ground arith
  check_answer_scope-eq-nil_iff path (ok names) =
      each-eq-nil_iff _ (λ _ ns. iff_trans (report-eq-nil_iff _ _) (InScope-iff ns)) names

  check_selector_scope-eq-nil_iff :
      (getter : Option LabelGetter) (i j : ℕ) (s : LabelSelector)
      → (check_selector_scope sel lg scope getter i j s ≡ [])
        ↔ AllResolved getter (InScope sel lg scope) s
  unfolding check_selector_scope
  check_selector_scope-eq-nil_iff none i j s = ground arith
  check_selector_scope-eq-nil_iff (some g) i j s =
      check_answer_scope-eq-nil_iff _ (g.list_namespaces_by_selector s)

  named_scope_iff :
      (ns : String)
      → ((not (ns == "") && not (namespace_in_scope sel lg scope ns)) ≡ false)
        ↔ ((ns ≡ "") ⊎ InScope sel lg scope ns)
  named_scope_iff ns =
      by_tests (ns == "") (namespace_in_scope sel lg scope ns) (eq_iff ns "")
        (namespace_in_scope_iff sel lg scope ns)
    where
      by_tests :
          {P Q : Type 0} (a b : Bool)
          → (a ≡ true) ↔ P
          → (b ≡ true) ↔ Q
          → ((not a && not b) ≡ false) ↔ (P ⊎ Q)
      by_tests true b p q = (λ _. inl (p.0 refl), λ _. refl)
      by_tests false true p q = (λ _. inr (q.0 refl), λ _. refl)
      by_tests false false p q = (
        λ e. cc,
        λ h. elim h [
          | inl x ↦ (let e : false ≡ true = p.1 x in cc)
          | inr y ↦ (let e : false ≡ true = q.1 y in cc)
        ],
      )

  check_binding_scope-eq-nil_iff :
      (i : ℕ) (nb : NamespaceBinding)
      → (check_binding_scope sel lg scope i nb ≡ []) ↔ BindingInScope sel lg scope nb
  unfolding check_binding_scope
  check_binding_scope-eq-nil_iff i nb =
      append-eq-nil_iff (iff_trans (report-eq-nil_iff _ _) (named_scope_iff nb.namespace))
        (each-eq-nil_iff _ (check_selector_scope-eq-nil_iff lg i) nb.namespace_selector)

  check_subject_scope-eq-nil_iff :
      (i : ℕ) (s : Subject)
      → (check_subject_scope sel lg scope i s ≡ []) ↔ SubjectInScope sel lg scope s
  unfolding check_subject_scope
  check_subject_scope-eq-nil_iff i s = elim (Bool-cases (s.kind == "ServiceAccount")) [
    | inl h ↦ elim (Bool-cases (s.namespace == "")) [
      | inl k ↦
          let empty = (eq_iff s.namespace "").0 k in
          rw (h, k) (λ _ _ n. absurd (n empty), λ _. refl)
      | inr k ↦
          let kind = (eq_iff s.kind "ServiceAccount").0 h in
          let named = (eq-false_iff _ (eq_iff s.namespace "")).0 k in
          let (f, g) = iff_trans (report-eq-nil_iff _ _) (InScope-iff s.namespace) in
          rw (h, k) (λ e _ _. f e, λ p. g (p kind named))
    ]
    | inr h ↦
        let other = (eq-false_iff _ (eq_iff s.kind "ServiceAccount")).0 h in
        rw h (λ _ k _. absurd (other k), λ _. refl)
  ]

no_binding_refs_iff :
    (bindings : List NamespaceBinding)
    → (any (λ (b : NamespaceBinding). nonempty b.cluster_role_refs || nonempty b.role_refs) bindings
        ≡ false)
      ↔ All (λ (nb : NamespaceBinding). (nb.cluster_role_refs ≡ []) × (nb.role_refs ≡ [])) bindings
no_binding_refs_iff [] = ground arith
no_binding_refs_iff (b ∷ bindings) = ground (arith, no_binding_refs_iff bindings)

rbd_has_role_refs-eq-false_iff :
    (rbd : RestrictedBindDefinition) → (rbd_has_role_refs rbd ≡ false) ↔ NoRoleRefs rbd
unfolding rbd_has_role_refs
rbd_has_role_refs-eq-false_iff rbd =
    by_refs (restricted_bind_cluster_role_refs rbd.spec.cluster_role_bindings)
      (no_binding_refs_iff rbd.spec.role_bindings)
  where
    by_refs :
        {P : Type 0} {b : Bool} (refs : List String)
        → (b ≡ false) ↔ P
        → ((if nonempty refs then true else b) ≡ false) ↔ ((refs ≡ []) × P)
    by_refs [] p = (λ e. (refl, p.0 e), λ t. p.1 t.1)
    by_refs (r ∷ refs) p = (λ e. cc, λ t. (let e : r ∷ refs ≡ [] = t.0 in cc))

module _ (sel : Selectors) (lg : Option LabelGetter) where
  check_binding_limits-eq-nil_iff :
      (limits : Option BindingLimits) (rbd : RestrictedBindDefinition)
      → (check_binding_limits sel lg limits rbd ≡ []) ↔ BindingsOk sel lg limits rbd
  unfolding check_binding_limits
  check_binding_limits-eq-nil_iff none rbd =
      iff_trans (report-eq-nil_iff _ _) (rbd_has_role_refs-eq-false_iff rbd)
  check_binding_limits-eq-nil_iff (some limits) rbd =
      evaluate_binding_limits-eq-nil_iff sel lg limits rbd

  check_subject_limits-eq-nil_iff :
      (limits : Option SubjectLimits) (subjects : List Subject)
      → (check_subject_limits sel lg limits subjects ≡ []) ↔ SubjectsOk sel lg limits subjects
  unfolding check_subject_limits
  check_subject_limits-eq-nil_iff none [] = ground arith
  check_subject_limits-eq-nil_iff none (s ∷ subjects) = ground arith
  check_subject_limits-eq-nil_iff (some limits) subjects =
      evaluate_subject_limits-eq-nil_iff sel lg limits subjects

-- `EvaluateBindDefinition` of a policy and a definition finds no violation exactly when the
-- definition complies with the policy.
pub evaluate_bind_definition-eq-nil_iff :
    (sel : Selectors) (lg : Option LabelGetter) (policy : RbacPolicy)
    (rbd : RestrictedBindDefinition)
    → (evaluate_bind_definition sel lg (some policy) (some rbd) ≡ [])
      ↔ BindCompliant sel lg policy rbd
unfolding evaluate_bind_definition evaluate_bind_definition_of
evaluate_bind_definition-eq-nil_iff sel lg policy rbd =
    let (f, g) =
      append-eq-nil_iff
        (iff_trans (report-eq-nil_iff _ _) (
          cluster_scope_iff (restricted_bind_cluster_role_refs rbd.spec.cluster_role_bindings)
            policy.spec.applies_to))
        (append-eq-nil_iff
          (each-eq-nil_iff _ (check_binding_scope-eq-nil_iff sel lg policy.spec.applies_to)
            rbd.spec.role_bindings)
          (append-eq-nil_iff
            (each-eq-nil_iff _ (check_subject_scope-eq-nil_iff sel lg policy.spec.applies_to)
              rbd.spec.subjects)
            (append-eq-nil_iff
              (check_binding_limits-eq-nil_iff sel lg policy.spec.binding_limits rbd)
              (check_subject_limits-eq-nil_iff sel lg policy.spec.subject_limits
                rbd.spec.subjects)))) in
    (
      λ e.
          let (a, (b, (c, (d, s)))) = f e in
          record {
            cluster_scope = a;
            binding_scope = b;
            subject_scope = c;
            bindings = d;
            subjects = s;
          },
      λ r. g (r.cluster_scope, (r.binding_scope, (r.subject_scope, (r.bindings, r.subjects)))),
    )

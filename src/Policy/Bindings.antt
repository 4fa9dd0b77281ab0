-- ===== src/Policy/Bindings.antt =====
-- pkg/policy/evaluator.go: the limits on the role references of a definition.
pub mod Laws
use auth_operator.Base.{
  ℕ, String, List, Option, none, some, Bool, true, false, not, ◌&&◌, ◌||◌, [], ◌∷◌, ◌++◌, ◌==◌,
  nonempty, is_some, report, if◌then◌else◌, Text, sprintf, plain, extend, str, num, each, any,
}
use auth_operator.Kube
use auth_operator.Kube.{LabelSelector, Selectors}
use auth_operator.Api.Policies.{RoleRefLimits, BindingLimits, NamespaceLimits}
use auth_operator.Api.Definitions.{ClusterBinding, NamespaceBinding, RestrictedBindDefinition}
use auth_operator.Policy.Labels.{Violation, LabelGetter, Fallible, ok, failed}
use auth_operator.Policy.RoleRefs.{check_role_ref}
use auth_operator.Policy.Namespaces.{evaluate_namespace_limits}

unfoldable pub restricted_bind_cluster_role_refs : Option ClusterBinding → List String
restricted_bind_cluster_role_refs none = []
restricted_bind_cluster_role_refs (some binding) = binding.cluster_role_refs

unfoldable pub rbd_has_role_refs : RestrictedBindDefinition → Bool
rbd_has_role_refs rbd =
    if nonempty (restricted_bind_cluster_role_refs rbd.spec.cluster_role_bindings)
    then true
    else any (λ (b : NamespaceBinding). nonempty b.cluster_role_refs || nonempty b.role_refs)
        rbd.spec.role_bindings

-- `var roleLabels; if lg != nil { roleLabels, _ = lg.GetClusterRoleLabels(ctx, ref) }`, and so for
-- the labels of a Role.
abbrev pub cluster_role_labels : Option LabelGetter → String → Option Kube.Labels
cluster_role_labels none ref = none
cluster_role_labels (some getter) ref = (getter.get_cluster_role_labels ref).0

abbrev pub role_labels_in : Option LabelGetter → String → String → Option Kube.Labels
role_labels_in none namespace ref = none
role_labels_in (some getter) namespace ref = (getter.get_role_labels namespace ref).0

abbrev pub no_cluster_role_limits : ℕ → Violation
no_cluster_role_limits i = record {
  field = sprintf "spec.roleBindings[%d].clusterRoleRefs" (num i ∷ []);
  message = plain "policy clusterRoleBindingLimits must be configured to allow ClusterRole refs";
}

abbrev pub no_role_limits : ℕ → Violation
no_role_limits i = record {
  field = sprintf "spec.roleBindings[%d].roleRefs" (num i ∷ []);
  message = plain "policy roleBindingLimits must be configured to allow Role refs";
}

abbrev pub cluster_role_ref_path : ℕ → ℕ → Text
cluster_role_ref_path i j = sprintf "spec.roleBindings[%d].clusterRoleRefs[%d]" (num i ∷ num j ∷ [])

module _ (sel : Selectors) (lg : Option LabelGetter) where
  -- The loop over references to ClusterRoles, which does nothing without limits.
  unfoldable pub check_cluster_role_refs :
      Option RoleRefLimits → (ℕ → Text) → List String → List Violation
  check_cluster_role_refs none path refs = []
  check_cluster_role_refs (some limits) path refs =
      each
        (λ i ref. check_role_ref sel limits ref (path i) (cluster_role_labels lg ref) (is_some lg))
        refs

  unfoldable pub evaluate_cluster_role_binding_limits :
      BindingLimits → RestrictedBindDefinition → List Violation
  evaluate_cluster_role_binding_limits limits rbd =
      let cluster_role_refs = restricted_bind_cluster_role_refs rbd.spec.cluster_role_bindings in
      report (not limits.allow_cluster_role_bindings && nonempty cluster_role_refs) (record {
        field = plain "spec.clusterRoleBindings";
        message = plain "ClusterRoleBindings are not allowed by policy";
      })
      ++ (report
            (limits.allow_cluster_role_bindings
              && not (is_some limits.cluster_role_binding_limits)
              && nonempty cluster_role_refs)
            (record {
              field = plain "spec.clusterRoleBindings.clusterRoleRefs";
              message =
                  plain
                    "policy clusterRoleBindingLimits must be configured to allow ClusterRole refs";
            })
          ++ (if limits.allow_cluster_role_bindings
              then check_cluster_role_refs limits.cluster_role_binding_limits
                  (λ i. sprintf "spec.clusterRoleBindings.clusterRoleRefs[%d]" (num i ∷ []))
                  cluster_role_refs
              else []))

  -- The check of a Role reference in each namespace that a selector resolves to.
  unfoldable pub check_ref_in_answer :
      RoleRefLimits → LabelGetter → String → Text → ℕ → ℕ → Fallible (List String) → List Violation
  check_ref_in_answer limits getter ref field_path i k (failed err) =
      record {
        field = sprintf "spec.roleBindings[%d].namespaceSelector[%d]" (num i ∷ num k ∷ []);
        message =
            sprintf "failed to resolve namespace selector for role ref %q: %v"
              (str ref ∷ str err ∷ []);
      }
      ∷ []
  check_ref_in_answer limits getter ref field_path i k (ok namespaces) =
      each
        (λ _ namespace.
          check_role_ref sel limits ref
            (extend field_path " (resolved namespace: %s)" (str namespace ∷ []))
            (getter.get_role_labels namespace ref).0 true)
        namespaces

  -- `len(nb.NamespaceSelector) > 0 && lg != nil`, and the check that stands behind it.
  unfoldable pub check_unplaced_role_ref :
      RoleRefLimits → Option LabelGetter → ℕ → List LabelSelector → String → Text → List Violation
  check_unplaced_role_ref limits (some getter) i (s ∷ selectors) ref field_path =
      each
        (λ k selector.
          check_ref_in_answer limits getter ref field_path i k
            (getter.list_namespaces_by_selector selector))
        (s ∷ selectors)
  check_unplaced_role_ref limits getter i selectors ref field_path =
      check_role_ref sel limits ref field_path none (is_some getter)

  -- The body of the loop over the Role references of a binding.
  unfoldable pub check_binding_role_ref :
      RoleRefLimits → ℕ → NamespaceBinding → ℕ → String → List Violation
  check_binding_role_ref limits i nb j ref =
      let field_path = sprintf "spec.roleBindings[%d].roleRefs[%d]" (num i ∷ num j ∷ []) in
      if not (nb.namespace == "")
      then check_role_ref sel limits ref field_path (role_labels_in lg nb.namespace ref)
          (is_some lg)
      else check_unplaced_role_ref limits lg i nb.namespace_selector ref field_path

  unfoldable pub check_binding_role_refs :
      Option RoleRefLimits → ℕ → NamespaceBinding → List Violation
  check_binding_role_refs none i nb = []
  check_binding_role_refs (some limits) i nb =
      each (check_binding_role_ref limits i nb) nb.role_refs

  -- The body of the loop of `evaluateRoleBindingLimits`.
  unfoldable pub check_role_binding : BindingLimits → ℕ → NamespaceBinding → List Violation
  check_role_binding limits i nb =
      report (not (is_some limits.cluster_role_binding_limits) && nonempty nb.cluster_role_refs)
        (no_cluster_role_limits i)
      ++ (report (not (is_some limits.role_binding_limits) && nonempty nb.role_refs)
            (no_role_limits i)
          ++ (check_cluster_role_refs limits.cluster_role_binding_limits (cluster_role_ref_path i)
                nb.cluster_role_refs
              ++ check_binding_role_refs limits.role_binding_limits i nb))

  unfoldable pub evaluate_role_binding_limits :
      BindingLimits → RestrictedBindDefinition → List Violation
  evaluate_role_binding_limits limits rbd = each (check_role_binding limits) rbd.spec.role_bindings

  abbrev pub evaluate_if_limited :
      Option NamespaceLimits → RestrictedBindDefinition → List Violation
  evaluate_if_limited none rbd = []
  evaluate_if_limited (some limits) rbd = evaluate_namespace_limits sel lg limits rbd

  unfoldable pub evaluate_binding_limits : BindingLimits → RestrictedBindDefinition → List Violation
  evaluate_binding_limits limits rbd =
      evaluate_cluster_role_binding_limits limits rbd
      ++ (evaluate_role_binding_limits limits rbd
          ++ evaluate_if_limited limits.target_namespace_limits rbd)

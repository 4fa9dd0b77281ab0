-- ===== src/Policy/Bind.antt =====
-- pkg/policy/evaluator.go: the evaluation of a RestrictedBindDefinition.
pub mod Compliance
use auth_operator.Base.{
  ℕ, String, List, Option, none, some, Bool, true, false, not, ◌&&◌, ◌||◌, [], ◌∷◌, ◌++◌, ◌==◌,
  nonempty, is_some, report, if◌then◌else◌, Text, sprintf, plain, extend, str, num, each,
}
use auth_operator.Kube.{LabelSelector, Selectors, Subject}
use auth_operator.Api.Policies.{PolicyScope, BindingLimits, SubjectLimits, RbacPolicy}
use auth_operator.Api.Definitions.{NamespaceBinding, RestrictedBindDefinition}
use auth_operator.Policy.Labels.{Violation, LabelGetter, Fallible, ok, failed}
use auth_operator.Policy.Scope.{namespace_in_scope, scope_allows_cluster_resources}
use auth_operator.Policy.Subjects.{service_account_kind, evaluate_subject_limits}
use auth_operator.Policy.Bindings.{
  restricted_bind_cluster_role_refs, rbd_has_role_refs, evaluate_binding_limits,
}

module _ (sel : Selectors) (lg : Option LabelGetter) where
  -- The check of the namespaces that a selector resolves to.
  unfoldable pub check_answer_scope : PolicyScope → Text → Fallible (List String) → List Violation
  check_answer_scope scope field_path (failed err) =
      record {
        field = field_path;
        message = sprintf "failed to resolve namespace selector: %v" (str err ∷ []);
      }
      ∷ []
  check_answer_scope scope field_path (ok namespaces) =
      each
        (λ _ namespace. report (not (namespace_in_scope sel lg scope namespace)) (record {
          field = extend field_path " (resolved: %s)" (str namespace ∷ []);
          message =
              sprintf "namespace %q is outside the policy's appliesTo scope" (str namespace ∷ []);
        }))
        namespaces

  -- The body of the loop over the selectors of a binding.
  unfoldable pub check_selector_scope :
      PolicyScope → Option LabelGetter → ℕ → ℕ → LabelSelector → List Violation
  check_selector_scope scope none i j selector =
      record {
        field = sprintf "spec.roleBindings[%d].namespaceSelector[%d]" (num i ∷ num j ∷ []);
        message = plain "namespace selector cannot be evaluated without a label resolver";
      }
      ∷ []
  check_selector_scope scope (some getter) i j selector =
      check_answer_scope scope
        (sprintf "spec.roleBindings[%d].namespaceSelector[%d]" (num i ∷ num j ∷ []))
        (getter.list_namespaces_by_selector selector)

  unfoldable pub check_binding_scope : PolicyScope → ℕ → NamespaceBinding → List Violation
  check_binding_scope scope i nb =
      report (not (nb.namespace == "") && not (namespace_in_scope sel lg scope nb.namespace))
        (record {
          field = sprintf "spec.roleBindings[%d].namespace" (num i ∷ []);
          message =
              sprintf "namespace %q is outside the policy's appliesTo scope"
                (str nb.namespace ∷ []);
        })
      ++ each (check_selector_scope scope lg i) nb.namespace_selector

  -- The body of the loop over the subjects; `continue` ends the first branch.
  unfoldable pub check_subject_scope : PolicyScope → ℕ → Subject → List Violation
  check_subject_scope scope i subject =
      if not (subject.kind == service_account_kind) || subject.namespace == ""
      then []
      else report (not (namespace_in_scope sel lg scope subject.namespace)) (record {
        field = sprintf "spec.subjects[%d].namespace" (num i ∷ []);
        message =
            sprintf "ServiceAccount namespace %q is outside the policy's appliesTo scope"
              (str subject.namespace ∷ []);
      })

  unfoldable pub check_binding_limits :
      Option BindingLimits → RestrictedBindDefinition → List Violation
  check_binding_limits none rbd = report (rbd_has_role_refs rbd) (record {
    field = plain "spec.policyRef";
    message = plain "policy bindingLimits must be configured to allow role bindings";
  })
  check_binding_limits (some limits) rbd = evaluate_binding_limits sel lg limits rbd

  unfoldable pub check_subject_limits : Option SubjectLimits → List Subject → List Violation
  check_subject_limits none subjects = report (nonempty subjects) (record {
    field = plain "spec.policyRef";
    message = plain "policy subjectLimits must be configured to allow subjects";
  })
  check_subject_limits (some limits) subjects = evaluate_subject_limits sel lg limits subjects

  -- `EvaluateBindDefinition` behind its tests for nil.
  unfoldable pub evaluate_bind_definition_of :
      RbacPolicy → RestrictedBindDefinition → List Violation
  evaluate_bind_definition_of policy rbd =
      report
        (nonempty (restricted_bind_cluster_role_refs rbd.spec.cluster_role_bindings)
          && not (scope_allows_cluster_resources policy.spec.applies_to))
        (record {
          field = plain "spec.clusterRoleBindings";
          message = plain "ClusterRoleBindings require appliesTo.namespaces to include \"*\"";
        })
      ++ (each (check_binding_scope policy.spec.applies_to) rbd.spec.role_bindings
          ++ (each (check_subject_scope policy.spec.applies_to) rbd.spec.subjects
              ++ (check_binding_limits policy.spec.binding_limits rbd
                  ++ check_subject_limits policy.spec.subject_limits rbd.spec.subjects)))

  unfoldable pub evaluate_bind_definition :
      Option RbacPolicy → Option RestrictedBindDefinition → List Violation
  evaluate_bind_definition none rbd =
      record { field = plain "<policy>"; message = plain "policy must not be nil" } ∷ []
  evaluate_bind_definition (some policy) none =
      record { field = plain "<rbd>"; message = plain "RestrictedBindDefinition must not be nil" }
      ∷ []
  evaluate_bind_definition (some policy) (some rbd) = evaluate_bind_definition_of policy rbd

-- ===== src/Policy/Subjects.antt =====
-- pkg/policy/evaluator.go: the limits on subjects.
pub mod Laws
use auth_operator.Base.{
  ℕ, String, List, Option, none, some, Bool, true, false, not, ◌&&◌, [], ◌∷◌, ◌++◌, ◌==◌, nonempty,
  contains, report, if◌then◌else◌, Text, sprintf, extend, str, num, each,
}
use auth_operator.Kube.{LabelSelector, Selectors, Subject}
use auth_operator.Api.Policies.{NameMatchLimits, ServiceAccountLimits, SubjectLimits}
use auth_operator.Policy.Labels.{Violation, LabelGetter, matches_selector}
use auth_operator.Policy.Matcher.{has_any_prefix, has_any_suffix}

-- rbacv1.UserKind, GroupKind and ServiceAccountKind
abbrev pub user_kind : String
user_kind = "User"

abbrev pub group_kind : String
group_kind = "Group"

abbrev pub service_account_kind : String
service_account_kind = "ServiceAccount"

unfoldable pub check_name_match_limits : NameMatchLimits → String → Text → List Violation
check_name_match_limits limits name field_path =
    report (contains limits.forbidden_names name) (record {
      field = field_path;
      message = sprintf "name %q is forbidden by policy" (str name ∷ []);
    })
    ++ (report (has_any_prefix limits.forbidden_prefixes name) (record {
      field = field_path;
      message = sprintf "name %q matches a forbidden prefix" (str name ∷ []);
    })
        ++ (report (has_any_suffix limits.forbidden_suffixes name) (record {
          field = field_path;
          message = sprintf "name %q matches a forbidden suffix" (str name ∷ []);
        })
            ++ (report (nonempty limits.allowed_names && not (contains limits.allowed_names name))
                  (record {
                    field = field_path;
                    message = sprintf "name %q is not in the allowed list" (str name ∷ []);
                  })
                ++ (report
                      (nonempty limits.allowed_prefixes
                        && not (has_any_prefix limits.allowed_prefixes name))
                      (record {
                        field = field_path;
                        message =
                            sprintf "name %q does not match any allowed prefix" (str name ∷ []);
                      })
                    ++ report
                        (nonempty limits.allowed_suffixes
                          && not (has_any_suffix limits.allowed_suffixes name))
                        (record {
                          field = field_path;
                          message =
                              sprintf "name %q does not match any allowed suffix" (str name ∷ []);
                        })))))

-- A name is checked only where limits are given.
abbrev pub check_if_limited : Option NameMatchLimits → String → Text → List Violation
check_if_limited none name field_path = []
check_if_limited (some limits) name field_path = check_name_match_limits limits name field_path

module _ (sel : Selectors) (lg : Option LabelGetter) where
  unfoldable pub check_account_selector :
      Option LabelSelector → Option LabelGetter → String → Text → List Violation
  check_account_selector none _ namespace field_path = []
  check_account_selector (some selector) none namespace field_path =
      if namespace == ""
      then []
      else record {
        field = extend field_path ".namespace" [];
        message =
            sprintf
              "ServiceAccount namespace %q cannot be checked against the allowed namespace label selector"
              (str namespace ∷ []);
      }
        ∷ []
  check_account_selector (some selector) (some getter) namespace field_path =
      let (ns_labels, found) = getter.get_namespace_labels namespace in
      if namespace == ""
      then []
      else report (if not found then true else not (matches_selector sel selector ns_labels))
          (record {
            field = extend field_path ".namespace" [];
            message =
                sprintf
                  "ServiceAccount namespace %q does not match the allowed namespace label selector"
                  (str namespace ∷ []);
          })

  unfoldable pub check_service_account_limits :
      ServiceAccountLimits → Subject → Text → List Violation
  check_service_account_limits limits subject field_path =
      report (contains limits.forbidden_namespaces subject.namespace) (record {
        field = extend field_path ".namespace" [];
        message =
            sprintf "ServiceAccount namespace %q is forbidden by policy"
              (str subject.namespace ∷ []);
      })
      ++ (report (has_any_prefix limits.forbidden_namespace_prefixes subject.namespace) (record {
        field = extend field_path ".namespace" [];
        message =
            sprintf "ServiceAccount namespace %q matches a forbidden prefix"
              (str subject.namespace ∷ []);
      })
          ++ check_account_selector limits.allowed_namespace_selector lg subject.namespace
              field_path)

  abbrev pub check_account_if_limited :
      Option ServiceAccountLimits → Subject → Text → List Violation
  check_account_if_limited none subject field_path = []
  check_account_if_limited (some limits) subject field_path =
      check_service_account_limits limits subject field_path

  -- The `switch` on the subject's kind.
  unfoldable pub check_by_kind : SubjectLimits → Subject → Text → List Violation
  check_by_kind limits s field_path =
      if s.kind == user_kind
      then check_if_limited limits.user_limits s.name (extend field_path ".name" [])
      else if s.kind == group_kind
      then check_if_limited limits.group_limits s.name (extend field_path ".name" [])
      else if s.kind == service_account_kind
      then check_account_if_limited limits.service_account_limits s field_path
      else []

  -- The body of the loop of `evaluateSubjectLimits`; `continue` ends a branch.
  unfoldable pub check_subject : SubjectLimits → ℕ → Subject → List Violation
  check_subject limits i s =
      let field_path = sprintf "spec.subjects[%d]" (num i ∷ []) in
      if contains limits.forbidden_kinds s.kind
      then record {
        field = extend field_path ".kind" [];
        message = sprintf "subject kind %q is forbidden by policy" (str s.kind ∷ []);
      }
        ∷ []
      else if not (contains limits.allowed_kinds s.kind)
      then record {
        field = extend field_path ".kind" [];
        message = sprintf "subject kind %q is not allowed by policy" (str s.kind ∷ []);
      }
        ∷ []
      else check_by_kind limits s field_path

  unfoldable pub evaluate_subject_limits : SubjectLimits → List Subject → List Violation
  evaluate_subject_limits limits subjects = each (check_subject limits) subjects

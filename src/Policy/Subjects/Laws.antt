-- ===== src/Policy/Subjects/Laws.antt =====
-- When the subjects pass the limits.
use auth_operator.Base.{
  ℕ, String, List, Option, none, some, Bool, true, false, not, ◌&&◌, [], ◌∷◌, ◌==◌, eq_iff, All,
  Any, In, contains, nonempty, contains_iff, contains-eq-false_iff, Text, ◌≡◌, ◌≢◌, refl, ◌↔◌, ◌⊎◌,
  inl, inr, arith, append-eq-nil_iff, report-eq-nil_iff, iff_trans, Bool-cases, eq-false_iff,
  each-eq-nil_iff, sym, ◌∙◌, sprintf, num,
}
use auth_operator.Kube.{LabelSelector, Selectors, Subject}
use auth_operator.Api.Policies.{NameMatchLimits, ServiceAccountLimits, SubjectLimits}
use auth_operator.Policy.Labels.{LabelGetter}
use auth_operator.Policy.Matcher.Glob.{StartsWith, EndsWith}
use auth_operator.Policy.Matcher.Names.{
  has_any_prefix_iff, has_any_prefix-eq-false_iff, has_any_suffix_iff, has_any_suffix-eq-false_iff,
}
use auth_operator.Policy.Scope.Laws.{SelectedBy}
use auth_operator.Policy.Subjects.{
  check_name_match_limits, check_if_limited, check_account_selector, check_service_account_limits,
  check_account_if_limited, check_by_kind, check_subject, evaluate_subject_limits,
}

-- `P` holds of an element of the list, where the list is not empty.
abbrev pub SomeIfAny : (String → Type 0) → List String → Type 0
SomeIfAny P xs = (xs ≡ []) ⊎ Any P xs

-- No forbidden name, prefix or suffix applies, and each list of allowances that is not empty
-- has an entry that does.
pub record NamePermitted (limits : NameMatchLimits) (name : String) : Type 0 where
  pub not_forbidden : ¬ In name limits.forbidden_names
  pub no_prefix : All (λ p. ¬ StartsWith p name) limits.forbidden_prefixes
  pub no_suffix : All (λ s. ¬ EndsWith s name) limits.forbidden_suffixes
  pub listed : SomeIfAny (λ n. n ≡ name) limits.allowed_names
  pub prefixed : SomeIfAny (λ p. StartsWith p name) limits.allowed_prefixes
  pub suffixed : SomeIfAny (λ s. EndsWith s name) limits.allowed_suffixes

allowance_iff :
    {Q : Type 0} (xs : List String) (b : Bool)
    → (b ≡ true) ↔ Q
    → ((nonempty xs && not b) ≡ false) ↔ ((xs ≡ []) ⊎ Q)
allowance_iff [] b h = (λ _. inl refl, λ _. refl)
allowance_iff (x ∷ xs) true h = (λ _. inr (h.0 refl), λ _. refl)
allowance_iff (x ∷ xs) false h =
    (λ e. cc, λ k. elim k [ inl e ↦ cc | inr a ↦ (let e : false ≡ true = h.1 a in cc) ])

-- `checkNameMatchLimits` finds no violation exactly when no denial applies and each of the lists of
-- allowed names, prefixes and suffixes that is not empty has an entry for the name.
pub check_name_match_limits-eq-nil_iff :
    (limits : NameMatchLimits) (name : String) (path : Text)
    → (check_name_match_limits limits name path ≡ []) ↔ NamePermitted limits name
unfolding check_name_match_limits
check_name_match_limits-eq-nil_iff limits name path =
    let (f, g) =
      append-eq-nil_iff
        (iff_trans (report-eq-nil_iff _ _) (contains-eq-false_iff limits.forbidden_names name))
        (append-eq-nil_iff
          (iff_trans (report-eq-nil_iff _ _)
            (has_any_prefix-eq-false_iff limits.forbidden_prefixes name))
          (append-eq-nil_iff
            (iff_trans (report-eq-nil_iff _ _)
              (has_any_suffix-eq-false_iff limits.forbidden_suffixes name))
            (append-eq-nil_iff
              (iff_trans (report-eq-nil_iff _ _)
                (allowance_iff limits.allowed_names _ (contains_iff limits.allowed_names name)))
              (append-eq-nil_iff
                (iff_trans (report-eq-nil_iff _ _) (
                  allowance_iff limits.allowed_prefixes _
                    (has_any_prefix_iff limits.allowed_prefixes name)))
                (iff_trans (report-eq-nil_iff _ _) (
                  allowance_iff limits.allowed_suffixes _
                    (has_any_suffix_iff limits.allowed_suffixes name))))))) in
    (
      λ e.
          let (a, (b, (c, (d, (p, s))))) = f e in
          record {
            not_forbidden = a;
            no_prefix = b;
            no_suffix = c;
            listed = d;
            prefixed = p;
            suffixed = s;
          },
      λ r. g (r.not_forbidden, (r.no_prefix, (r.no_suffix, (r.listed, (r.prefixed, r.suffixed))))),
    )

abbrev pub NameOk : Option NameMatchLimits → String → Type 0
NameOk none name = Unit
NameOk (some limits) name = NamePermitted limits name

check_if_limited-eq-nil_iff :
    (limits : Option NameMatchLimits) (name : String) (path : Text)
    → (check_if_limited limits name path ≡ []) ↔ NameOk limits name
check_if_limited-eq-nil_iff none name path = ground arith
check_if_limited-eq-nil_iff (some limits) name path =
    check_name_match_limits-eq-nil_iff limits name path

module _ (sel : Selectors) (lg : Option LabelGetter) where
  -- The allowed selector accepts the account's namespace, where it has one.
  abbrev pub AccountSelected : Option LabelSelector → String → Type 0
  AccountSelected none namespace = Unit
  AccountSelected (some selector) namespace =
      (namespace ≡ "") ⊎ SelectedBy sel lg selector lg namespace

  abbrev pub AccountPermitted : ServiceAccountLimits → String → Type 0
  AccountPermitted limits namespace =
      (¬ In namespace limits.forbidden_namespaces)
      × (All (λ p. ¬ StartsWith p namespace) limits.forbidden_namespace_prefixes
          × AccountSelected limits.allowed_namespace_selector namespace)

  abbrev pub AccountOk : Option ServiceAccountLimits → String → Type 0
  AccountOk none namespace = Unit
  AccountOk (some limits) namespace = AccountPermitted limits namespace

  -- The subject's kind is allowed and not forbidden, and the limits for that kind are kept.
  pub record SubjectPermitted (limits : SubjectLimits) (s : Subject) : Type 0 where
    pub not_forbidden : ¬ In s.kind limits.forbidden_kinds
    pub allowed : In s.kind limits.allowed_kinds
    pub user : s.kind ≡ "User" → NameOk limits.user_limits s.name
    pub group : s.kind ≡ "Group" → NameOk limits.group_limits s.name
    pub account : s.kind ≡ "ServiceAccount" → AccountOk limits.service_account_limits s.namespace

check_account_selector_iff :
    (sel : Selectors) (lg : Option LabelGetter) (s : Option LabelSelector) (ns : String)
    (path : Text)
    → (check_account_selector sel lg s lg ns path ≡ []) ↔ AccountSelected sel lg s ns
unfolding check_account_selector
check_account_selector_iff sel lg none ns path = ground arith
check_account_selector_iff sel none (some s) ns path = ground (arith, eq_iff ns "")
check_account_selector_iff sel (some g) (some s) ns path = ground (arith, eq_iff ns "")

module _ (sel : Selectors) (lg : Option LabelGetter) where
  check_account-eq-nil_iff :
      (limits : Option ServiceAccountLimits) (s : Subject) (path : Text)
      → (check_account_if_limited sel lg limits s path ≡ []) ↔ AccountOk sel lg limits s.namespace
  unfolding check_service_account_limits
  check_account-eq-nil_iff none s path = ground arith
  check_account-eq-nil_iff (some limits) s path =
      append-eq-nil_iff
        (iff_trans (report-eq-nil_iff _ _)
          (contains-eq-false_iff limits.forbidden_namespaces s.namespace))
        (append-eq-nil_iff
          (iff_trans (report-eq-nil_iff _ _)
            (has_any_prefix-eq-false_iff limits.forbidden_namespace_prefixes s.namespace))
          (check_account_selector_iff sel lg limits.allowed_namespace_selector s.namespace path))

user≢group : ◌≢◌ {A = String} "User" "Group"
user≢group = ground (arith, eq_iff "User" "Group")

user≢account : ◌≢◌ {A = String} "User" "ServiceAccount"
user≢account = ground (arith, eq_iff "User" "ServiceAccount")

group≢account : ◌≢◌ {A = String} "Group" "ServiceAccount"
group≢account = ground (arith, eq_iff "Group" "ServiceAccount")

module _ (sel : Selectors) (lg : Option LabelGetter) (limits : SubjectLimits) where
  check_by_kind-eq-nil_iff :
      (s : Subject) (path : Text)
      → (check_by_kind sel lg limits s path ≡ []) ↔ (
          (s.kind ≡ "User" → NameOk limits.user_limits s.name)
          × ((s.kind ≡ "Group" → NameOk limits.group_limits s.name)
              × (s.kind ≡ "ServiceAccount"
                  → AccountOk sel lg limits.service_account_limits s.namespace)))
  unfolding check_by_kind
  check_by_kind-eq-nil_iff s path = elim (Bool-cases (s.kind == "User")) [
    | inl h ↦
        let e = (eq_iff s.kind "User").0 h in
        let (f, g) = check_if_limited-eq-nil_iff limits.user_limits s.name _ in
        rw h (
          λ x. (
            λ _. f x,
            (λ k. absurd (user≢group (sym e ∙ k)), λ k. absurd (user≢account (sym e ∙ k))),
          ),
          λ t. g (t.0 e),
        )
    | inr h ↦ elim (Bool-cases (s.kind == "Group")) [
      | inl k ↦
          let e = (eq_iff s.kind "Group").0 k in
          let (f, g) = check_if_limited-eq-nil_iff limits.group_limits s.name _ in
          rw (h, k)
            (
              λ x. (
                λ u. absurd (user≢group (sym u ∙ e)),
                (λ _. f x, λ u. absurd (group≢account (sym e ∙ u))),
              ),
              λ t. g (t.1.0 e),
            )
      | inr k ↦ elim (Bool-cases (s.kind == "ServiceAccount")) [
        | inl l ↦
            let e = (eq_iff s.kind "ServiceAccount").0 l in
            let (f, g) = check_account-eq-nil_iff sel lg limits.service_account_limits s path in
            rw (h, k, l)
              (
                λ x. (
                  λ u. absurd (user≢account (sym u ∙ e)),
                  (λ u. absurd (group≢account (sym u ∙ e)), λ _. f x),
                ),
                λ t. g (t.1.1 e),
              )
        | inr l ↦
            let n1 = (eq-false_iff _ (eq_iff s.kind "User")).0 h in
            let n2 = (eq-false_iff _ (eq_iff s.kind "Group")).0 k in
            let n3 = (eq-false_iff _ (eq_iff s.kind "ServiceAccount")).0 l in
            rw (h, k, l)
              (λ _. (λ u. absurd (n1 u), (λ u. absurd (n2 u), λ u. absurd (n3 u))), λ _. refl)
      ]
    ]
  ]

  pub check_subject-eq-nil_iff :
      (i : ℕ) (s : Subject)
      → (check_subject sel lg limits i s ≡ []) ↔ SubjectPermitted sel lg limits s
  unfolding check_subject
  check_subject-eq-nil_iff i s =
      let (f, g) = check_by_kind-eq-nil_iff s (sprintf "spec.subjects[%d]" (num i ∷ [])) in
      elim (Bool-cases (contains limits.forbidden_kinds s.kind)) [
        | inl h ↦
            let bad = (contains_iff limits.forbidden_kinds s.kind).0 h in
            rw h (λ e. cc, λ r. absurd (r.not_forbidden bad))
        | inr h ↦
            let good = (contains-eq-false_iff limits.forbidden_kinds s.kind).0 h in
            elim (Bool-cases (contains limits.allowed_kinds s.kind)) [
              | inl k ↦
                  let listed = (contains_iff limits.allowed_kinds s.kind).0 k in
                  rw (h, k)
                    (
                      λ e.
                          let (u, (v, w)) = f e in
                          record {
                            not_forbidden = good;
                            allowed = listed;
                            user = u;
                            group = v;
                            account = w;
                          },
                      λ r. g (r.user, (r.group, r.account)),
                    )
              | inr k ↦
                  let unlisted = (contains-eq-false_iff limits.allowed_kinds s.kind).0 k in
                  rw (h, k) (λ e. cc, λ r. absurd (unlisted r.allowed))
            ]
      ]

-- `evaluateSubjectLimits` finds no violation exactly when every subject is permitted.
pub evaluate_subject_limits-eq-nil_iff :
    (sel : Selectors) (lg : Option LabelGetter) (limits : SubjectLimits) (subjects : List Subject)
    → (evaluate_subject_limits sel lg limits subjects ≡ [])
      ↔ All (SubjectPermitted sel lg limits) subjects
unfolding evaluate_subject_limits
evaluate_subject_limits-eq-nil_iff sel lg limits subjects =
    each-eq-nil_iff (check_subject sel lg limits) (check_subject-eq-nil_iff sel lg limits) subjects

-- ===== src/Policy/Impersonation/Laws.antt =====
-- When a constrained-impersonation grant passes the limits.
use auth_operator.Base.{
  ℕ, ℤ, String, List, Option, none, some, Bool, true, false, not, ◌&&◌, [], ◌∷◌, All, Any, In,
  contains, nonempty, contains_iff, Text, ◌≡◌, refl, ◌↔◌, ◌⊎◌, inl, inr, arith, iff_trans,
  if◌then◌else◌, report-eq-nil_iff, append-eq-nil_iff, each-eq-nil_iff, Exceeds,
  exceeds-eq-false_iff,
}
use auth_operator.Api.Policies.{RoleLimits, ConstrainedImpersonationLimits, NameMatchLimits}
use auth_operator.Api.Impersonation.{
  ConstrainedImpersonationSpec, ImpersonationIdentityRule, ImpersonationActionRule,
  build_constrained_impersonation_rules,
}
use auth_operator.Api.Definitions.{RestrictedRoleDefinition}
use auth_operator.Policy.Labels.{Violation}
use auth_operator.Policy.Matcher.Glob.{Glob}
use auth_operator.Policy.Matcher.Names.{
  matches_any_wildcard-eq-false_iff, contains_string_or_wildcard_iff,
}
use auth_operator.Policy.Impersonation.{
  evaluate_impersonation_verb_denylist, evaluate_impersonation_mode_and_resources,
  name_match_violation, total_names, check_max_names, name_violation, check_identity_names,
  evaluate_impersonation_identity_names, evaluate_impersonation_actions,
  evaluate_impersonation_legacy_fallback, check_grant, check_if_granted,
  evaluate_constrained_impersonation,
}
use auth_operator.Policy.Impersonation.Names.{NameAccepted, name_match_violation-eq-none_iff}
use auth_operator.Policy.Impersonation.Denylist.{RulesPermitted, check_generated_rules-eq-nil_iff}

abbrev pub WithinNames : Option ℤ → ℕ → Type 0
WithinNames none total = Unit
WithinNames (some most) total = ¬ Exceeds total most

abbrev pub NamesAccepted : Option NameMatchLimits → List ImpersonationIdentityRule → Type 0
NamesAccepted none identities = Unit
NamesAccepted (some limits) identities =
    All (λ (rule : ImpersonationIdentityRule). All (NameAccepted limits) rule.names) identities

-- What the limits demand of a grant.
pub record GrantPermitted (limits : RoleLimits) (ci : ConstrainedImpersonationLimits)
    (rrd : RestrictedRoleDefinition) (spec : ConstrainedImpersonationSpec) : Type 0 where
  pub enabled : ci.allowed ≡ true
  pub rules : RulesPermitted limits (build_constrained_impersonation_rules (some spec))
  pub mode : (ci.allowed_modes ≡ []) ⊎ In spec.mode ci.allowed_modes
  pub resources :
      (ci.allowed_identity_resources ≡ [])
      ⊎ All
          (λ (rule : ImpersonationIdentityRule). In rule.resource ci.allowed_identity_resources)
          spec.identities
  pub count : WithinNames ci.max_identity_names (total_names spec.identities)
  pub names : NamesAccepted ci.identity_name_limits spec.identities
  pub actions :
      All
        (λ (a : ImpersonationActionRule).
          All (λ v. All (λ p. ¬ Glob p v) ci.forbidden_action_verbs) a.verbs)
        spec.actions
  pub legacy :
      (ci.forbid_legacy_fallback ≡ false)
      ⊎ Any (λ s. (s ≡ "impersonate") ⊎ (s ≡ "*")) rrd.spec.restricted_verbs

abbrev pub GrantOk :
    RoleLimits
    → Option ConstrainedImpersonationLimits
    → RestrictedRoleDefinition
    → ConstrainedImpersonationSpec
    → Type 0
GrantOk limits none rrd spec = ⊥
GrantOk limits (some ci) rrd spec = GrantPermitted limits ci rrd spec

-- A definition without a grant is fine; one with a grant needs limits that permit it.
abbrev pub ImpersonationOk :
    RoleLimits → RestrictedRoleDefinition → Option ConstrainedImpersonationSpec → Type 0
ImpersonationOk limits rrd none = Unit
ImpersonationOk limits rrd (some spec) = GrantOk limits limits.constrained_impersonation rrd spec

listed_iff :
    (xs : List String) (s : String)
    → ((nonempty xs && not (contains xs s)) ≡ false) ↔ ((xs ≡ []) ⊎ In s xs)
listed_iff [] s = ground arith
listed_iff (x ∷ xs) s =
    let (f, g) = contains_iff (x ∷ xs) s in
    (
      λ e. inr (f (ground arith)),
      λ h. elim h [ inl e ↦ cc | inr k ↦ (let t : contains (x ∷ xs) s ≡ true = g k in rw t) ],
    )

not-contains_iff : (xs : List String) (s : String) → (not (contains xs s) ≡ false) ↔ In s xs
not-contains_iff xs s =
    let (f, g) = contains_iff xs s in
    (λ e. f (ground arith), λ k. (let t : contains xs s ≡ true = g k in rw t))

-- A loop that runs only where a list is not empty.
if_configured_iff {ℓ} :
    {A : Type ℓ} {P : Type 0} (xs : List String) (loop : List A)
    → (loop ≡ []) ↔ P
    → ((if nonempty xs then loop else []) ≡ []) ↔ ((xs ≡ []) ⊎ P)
if_configured_iff [] loop h = (λ _. inl refl, λ _. refl)
if_configured_iff (x ∷ xs) loop h = (λ e. inr (h.0 e), λ k. elim k [ inl e ↦ cc | inr p ↦ h.1 p ])

mode_and_resources-eq-nil_iff :
    (ci : ConstrainedImpersonationLimits) (spec : ConstrainedImpersonationSpec)
    → (evaluate_impersonation_mode_and_resources ci spec ≡ []) ↔ (
        ((ci.allowed_modes ≡ []) ⊎ In spec.mode ci.allowed_modes)
        × ((ci.allowed_identity_resources ≡ [])
            ⊎ All
                (λ (rule : ImpersonationIdentityRule).
                  In rule.resource ci.allowed_identity_resources)
                spec.identities))
unfolding evaluate_impersonation_mode_and_resources
mode_and_resources-eq-nil_iff ci spec =
    append-eq-nil_iff (iff_trans (report-eq-nil_iff _ _) (listed_iff ci.allowed_modes spec.mode)) (
      if_configured_iff ci.allowed_identity_resources _ (
        each-eq-nil_iff _
          (λ i (rule : ImpersonationIdentityRule).
            iff_trans (report-eq-nil_iff _ _)
              (not-contains_iff ci.allowed_identity_resources rule.resource))
          spec.identities))

check_max_names-eq-nil_iff :
    (most : Option ℤ) (total : ℕ) → (check_max_names most total ≡ []) ↔ WithinNames most total
unfolding check_max_names
check_max_names-eq-nil_iff none total = ground arith
check_max_names-eq-nil_iff (some most) total =
    iff_trans (report-eq-nil_iff _ _) (exceeds-eq-false_iff total most)

name_violation-eq-nil_iff :
    (i j : ℕ) (name : String) (reason : Option Text)
    → (name_violation i j name reason ≡ []) ↔ (reason ≡ none)
name_violation-eq-nil_iff i j name none = ground arith
name_violation-eq-nil_iff i j name (some r) = (λ e. cc, λ e. cc)

check_identity_names-eq-nil_iff :
    (limits : Option NameMatchLimits) (identities : List ImpersonationIdentityRule)
    → (check_identity_names limits identities ≡ []) ↔ NamesAccepted limits identities
unfolding check_identity_names
check_identity_names-eq-nil_iff none identities = ground arith
check_identity_names-eq-nil_iff (some limits) identities =
    each-eq-nil_iff _
      (λ i (rule : ImpersonationIdentityRule).
        each-eq-nil_iff _
          (λ j name.
            iff_trans (name_violation-eq-nil_iff i j name (name_match_violation limits name))
              (name_match_violation-eq-none_iff limits name))
          rule.names)
      identities

no_forbidden_verb : (vs : List String) → All (λ v. All (λ p. ¬ Glob p v) []) vs
no_forbidden_verb [] = tt
no_forbidden_verb (v ∷ vs) = (tt, no_forbidden_verb vs)

no_forbidden_action :
    (rules : List ImpersonationActionRule)
    → All (λ (a : ImpersonationActionRule). All (λ v. All (λ p. ¬ Glob p v) []) a.verbs) rules
no_forbidden_action [] = tt
no_forbidden_action (a ∷ rules) = (no_forbidden_verb a.verbs, no_forbidden_action rules)

actions-eq-nil_iff :
    (forbidden : List String) (actions : List ImpersonationActionRule) (loop : List Violation)
    → (loop ≡ [])
      ↔ All
          (λ (a : ImpersonationActionRule). All (λ v. All (λ p. ¬ Glob p v) forbidden) a.verbs)
          actions
    → ((if not (nonempty forbidden) then [] else loop) ≡ [])
      ↔ All
          (λ (a : ImpersonationActionRule). All (λ v. All (λ p. ¬ Glob p v) forbidden) a.verbs)
          actions
actions-eq-nil_iff [] actions loop h = (λ _. no_forbidden_action actions, λ _. refl)
actions-eq-nil_iff (f ∷ fs) actions loop h = h

evaluate_impersonation_actions-eq-nil_iff :
    (ci : ConstrainedImpersonationLimits) (spec : ConstrainedImpersonationSpec)
    → (evaluate_impersonation_actions ci spec ≡ [])
      ↔ All
          (λ (a : ImpersonationActionRule).
            All (λ v. All (λ p. ¬ Glob p v) ci.forbidden_action_verbs) a.verbs)
          spec.actions
unfolding evaluate_impersonation_actions
evaluate_impersonation_actions-eq-nil_iff ci spec =
    actions-eq-nil_iff ci.forbidden_action_verbs spec.actions _ (
      each-eq-nil_iff _
        (λ i (a : ImpersonationActionRule).
          each-eq-nil_iff _
            (λ j verb.
              iff_trans (report-eq-nil_iff _ _)
                (matches_any_wildcard-eq-false_iff ci.forbidden_action_verbs verb))
            a.verbs)
        spec.actions)

legacy-eq-nil_iff :
    (ci : ConstrainedImpersonationLimits) (rrd : RestrictedRoleDefinition)
    → (evaluate_impersonation_legacy_fallback ci rrd ≡ []) ↔ (
        (ci.forbid_legacy_fallback ≡ false)
        ⊎ Any (λ s. (s ≡ "impersonate") ⊎ (s ≡ "*")) rrd.spec.restricted_verbs)
unfolding evaluate_impersonation_legacy_fallback
legacy-eq-nil_iff ci rrd =
    ground (arith, contains_string_or_wildcard_iff rrd.spec.restricted_verbs "impersonate")

-- The test of whether grants are allowed, in front of the other checks.
if_allowed_iff {ℓ κ} :
    {A : Type ℓ} {P : Type κ} {loop : List A} (v : A) (vs : List A) (b : Bool)
    → (loop ≡ []) ↔ P
    → ((if not b then v ∷ vs else loop) ≡ []) ↔ ((b ≡ true) × P)
if_allowed_iff v vs true h = (λ e. (refl, h.0 e), λ t. h.1 t.1)
if_allowed_iff v vs false h = (λ e. cc, λ t. (let e : false ≡ true = t.0 in cc))

module _ (limits : RoleLimits) (rrd : RestrictedRoleDefinition)
    (spec : ConstrainedImpersonationSpec) where
  check_grant-eq-nil_iff :
      (ci : Option ConstrainedImpersonationLimits)
      → (check_grant limits ci rrd spec ≡ []) ↔ GrantOk limits ci rrd spec
  unfolding check_grant evaluate_impersonation_verb_denylist evaluate_impersonation_identity_names
  check_grant-eq-nil_iff none = ground arith
  check_grant-eq-nil_iff (some ci) =
      let (f, g) = if_allowed_iff _ _ ci.allowed (
        append-eq-nil_iff
          (check_generated_rules-eq-nil_iff limits spec.mode
            (build_constrained_impersonation_rules (some spec)))
          (append-eq-nil_iff (mode_and_resources-eq-nil_iff ci spec) (
            append-eq-nil_iff
              (append-eq-nil_iff
                (check_max_names-eq-nil_iff ci.max_identity_names (total_names spec.identities))
                (check_identity_names-eq-nil_iff ci.identity_name_limits spec.identities))
              (append-eq-nil_iff (evaluate_impersonation_actions-eq-nil_iff ci spec)
                (legacy-eq-nil_iff ci rrd))))) in
      (
        λ e.
            let (h, (r, ((m, i), ((c, n), (a, l))))) = f e in
            record {
              enabled = h;
              rules = r;
              mode = m;
              resources = i;
              count = c;
              names = n;
              actions = a;
              legacy = l;
            },
        λ r. g (
          r.enabled,
          (r.rules, ((r.mode, r.resources), ((r.count, r.names), (r.actions, r.legacy)))),
        ),
      )

-- `evaluateConstrainedImpersonation` finds no violation exactly when there is no grant, or limits
-- on grants are given and the grant is permitted by them: generated rules (a forbidden combination
-- without an API group stands for every group), mode, resources, names, action verbs and the closing
-- of the legacy fallback.
pub evaluate_constrained_impersonation-eq-nil_iff :
    (limits : RoleLimits) (rrd : RestrictedRoleDefinition)
    → (evaluate_constrained_impersonation limits rrd ≡ [])
      ↔ ImpersonationOk limits rrd rrd.spec.constrained_impersonation
unfolding evaluate_constrained_impersonation
evaluate_constrained_impersonation-eq-nil_iff limits rrd =
    by_grant rrd.spec.constrained_impersonation
  where
    by_grant :
        (grant : Option ConstrainedImpersonationSpec)
        → (check_if_granted limits rrd grant ≡ []) ↔ ImpersonationOk limits rrd grant
    by_grant none = ground arith
    by_grant (some spec) = check_grant-eq-nil_iff limits rrd spec limits.constrained_impersonation

-- ===== src/Policy/Impersonation/Denylist.antt =====
-- When the rules generated for a grant stay clear of the denylists of the limits.
use auth_operator.Base.{
  String, List, Option, none, some, true, false, [], ◌∷◌, All, Any, any_iff, and_iff, or_iff,
  eq_iff, ◌≡◌, ◌↔◌, ◌⊎◌, inl, inr, arith, Bool-cases, each-eq-nil_iff, eq-false_iff,
}
use auth_operator.Kube.{PolicyRule}
use auth_operator.Api.Policies.{RoleLimits, ResourceVerbRule}
use auth_operator.Policy.Matcher.{matches_any_wildcard}
use auth_operator.Policy.Matcher.Glob.{Glob}
use auth_operator.Policy.Matcher.Names.{
  matches_any_wildcard_iff, matches_any_wildcard-eq-false_iff, Covers,
  api_group_restriction_covers_iff, CoversName, matches_resource_name_iff,
}
use auth_operator.Policy.Impersonation.{
  forbids_resource_verb, forbidden_resource_verb_violation, check_generated_verb,
  check_generated_rules,
}

-- The forbidden combination covers the verb, a group and a resource of the rule.
abbrev pub Forbids : PolicyRule → String → ResourceVerbRule → Type 0
Forbids rule verb forbidden =
    Any (λ p. Glob p verb) forbidden.verbs
    × (Any (λ g. Covers forbidden.api_group g ⊎ (g ≡ "*")) rule.api_groups
        × Any (λ r. CoversName forbidden.resource r) rule.resources)

abbrev pub VerbPermitted : RoleLimits → PolicyRule → String → Type 0
VerbPermitted limits rule verb =
    All (λ p. ¬ Glob p verb) limits.forbidden_verbs
    × All (λ f. ¬ Forbids rule verb f) limits.forbidden_resource_verbs

abbrev pub RulesPermitted : RoleLimits → Option (List PolicyRule) → Type 0
RulesPermitted limits none = ⊥
RulesPermitted limits (some rules) =
    All (λ (rule : PolicyRule). All (VerbPermitted limits rule) rule.verbs) rules

forbids_resource_verb_iff :
    (rule : PolicyRule) (verb : String) (f : ResourceVerbRule)
    → (forbids_resource_verb rule verb f ≡ true) ↔ Forbids rule verb f
unfolding forbids_resource_verb
forbids_resource_verb_iff rule verb f = and_iff _ _ (matches_any_wildcard_iff f.verbs verb) (
    and_iff _ _
      (any_iff _ (λ g. or_iff _ _ (api_group_restriction_covers_iff f.api_group g) (eq_iff g "*"))
        rule.api_groups)
      (any_iff _ (λ r. matches_resource_name_iff f.resource r) rule.resources))

forbidden_resource_verb-eq-nil_iff :
    (fs : List ResourceVerbRule) (rule : PolicyRule) (verb : String)
    → (forbidden_resource_verb_violation fs rule verb ≡ []) ↔ All (λ f. ¬ Forbids rule verb f) fs
unfolding forbidden_resource_verb_violation
forbidden_resource_verb-eq-nil_iff [] rule verb = ground arith
forbidden_resource_verb-eq-nil_iff (f ∷ fs) rule verb =
    let (to, from) = forbidden_resource_verb-eq-nil_iff fs rule verb in
    elim (Bool-cases (forbids_resource_verb rule verb f)) [
      | inl h ↦
          let bad = (forbids_resource_verb_iff rule verb f).0 h in
          rw h (λ e. cc, λ t. absurd (t.0 bad))
      | inr h ↦
          let good = (eq-false_iff _ (forbids_resource_verb_iff rule verb f)).0 h in
          rw h (λ e. (good, to e), λ t. from t.1)
    ]

check_generated_verb-eq-nil_iff :
    (limits : RoleLimits) (rule : PolicyRule) (verb : String)
    → (check_generated_verb limits rule verb ≡ []) ↔ VerbPermitted limits rule verb
unfolding check_generated_verb
check_generated_verb-eq-nil_iff limits rule verb =
    let (to, from) = forbidden_resource_verb-eq-nil_iff limits.forbidden_resource_verbs rule verb in
    let (f, g) = matches_any_wildcard-eq-false_iff limits.forbidden_verbs verb in
    elim (Bool-cases (matches_any_wildcard limits.forbidden_verbs verb)) [
      | inl h ↦ rw h (
        λ e. cc,
        λ t. (let e : matches_any_wildcard limits.forbidden_verbs verb ≡ false = g t.0 in cc),
      )
      | inr h ↦ rw h (λ e. (f h, to e), λ t. from t.1)
    ]

pub check_generated_rules-eq-nil_iff :
    (limits : RoleLimits) (mode : String) (rules : Option (List PolicyRule))
    → (check_generated_rules limits mode rules ≡ []) ↔ RulesPermitted limits rules
unfolding check_generated_rules
check_generated_rules-eq-nil_iff limits mode none = ground arith
check_generated_rules-eq-nil_iff limits mode (some rules) =
    each-eq-nil_iff _
      (λ _ rule.
        each-eq-nil_iff _ (λ _ verb. check_generated_verb-eq-nil_iff limits rule verb) rule.verbs)
      rules

-- ===== src/Policy/Role/RuleCount.antt =====
-- When a generated role has too many rules.
use auth_operator.Base.{
  ℕ, ℤ, Option, none, some, Bool, true, false, ◌≡◌, refl, ◌↔◌, Exceeds, exceeds,
  exceeds-eq-false_iff, if◌then◌else◌, iff_trans,
}
use auth_operator.Api.Policies.{RoleLimits}
use auth_operator.Policy.Role.{check_rule_count, check_max_rules_per_role}

abbrev pub WithinCount : Option ℤ → ℕ → Type 0
WithinCount none count = Unit
WithinCount (some most) count = ¬ Exceeds count most

-- Without limits, or without a maximum, any number of rules is within it.
abbrev pub WithinRules : Option RoleLimits → ℕ → Type 0
WithinRules none count = Unit
WithinRules (some limits) count = WithinCount limits.max_rules_per_role count

none_iff {ℓ} : {A : Type ℓ} (b : Bool) (a : A) → ((if b then some a else none) ≡ none) ↔ (b ≡ false)
none_iff true a = (λ e. cc, λ e. cc)
none_iff false a = (λ _. refl, λ _. refl)

check_rule_count-eq-none_iff :
    (most : Option ℤ) (count : ℕ) → (check_rule_count most count ≡ none) ↔ WithinCount most count
check_rule_count-eq-none_iff none count = (λ _. tt, λ _. refl)
check_rule_count-eq-none_iff (some most) count =
    iff_trans (none_iff (exceeds count most) _) (exceeds-eq-false_iff count most)

-- `CheckMaxRulesPerRole` reports nothing exactly when there is no maximum or the number of rules
-- does not exceed it.
pub check_max_rules_per_role-eq-none_iff :
    (limits : Option RoleLimits) (count : ℕ)
    → (check_max_rules_per_role limits count ≡ none) ↔ WithinRules limits count
unfolding check_max_rules_per_role
check_max_rules_per_role-eq-none_iff none count = (λ _. tt, λ _. refl)
check_max_rules_per_role-eq-none_iff (some limits) count =
    check_rule_count-eq-none_iff limits.max_rules_per_role count

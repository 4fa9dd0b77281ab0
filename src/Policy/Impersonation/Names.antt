-- ===== src/Policy/Impersonation/Names.antt =====
-- When an identity name is accepted, and how that compares with the limits on subject names.
use auth_operator.Base.{
  nonempty-eq-false_iff, String, List, Option, none, some, true, [], ◌∷◌, All, Any, In, contains,
  is_some, contains_iff, contains-eq-false_iff, Text, ◌≡◌, refl, ◌↔◌, ◌⊎◌, inl, inr, arith,
  Bool-cases,
}
use auth_operator.Api.Policies.{NameMatchLimits}
use auth_operator.Policy.Matcher.Glob.{StartsWith, EndsWith}
use auth_operator.Policy.Matcher.Names.{has_prefix_iff, has_suffix_iff}
use auth_operator.Policy.Subjects.{check_name_match_limits}
use auth_operator.Policy.Subjects.Laws.{check_name_match_limits-eq-nil_iff, NamePermitted}
use auth_operator.Policy.Impersonation.{
  first_prefix, first_suffix, allow_violation, deny_or, name_match_violation,
}

first_prefix_iff :
    (name : String) (ps : List String)
    → (first_prefix name ps ≡ none) ↔ All (λ p. ¬ StartsWith p name) ps
unfolding first_prefix
first_prefix_iff name [] = ground arith
first_prefix_iff name (p ∷ ps) = ground (arith, has_prefix_iff name p, first_prefix_iff name ps)

first_prefix_some :
    (name : String) (ps : List String)
    → (is_some (first_prefix name ps) ≡ true) ↔ Any (λ p. StartsWith p name) ps
unfolding first_prefix
first_prefix_some name [] = ground arith
first_prefix_some name (p ∷ ps) = ground (arith, has_prefix_iff name p, first_prefix_some name ps)

first_suffix_iff :
    (name : String) (ps : List String)
    → (first_suffix name ps ≡ none) ↔ All (λ p. ¬ EndsWith p name) ps
unfolding first_suffix
first_suffix_iff name [] = ground arith
first_suffix_iff name (p ∷ ps) = ground (arith, has_suffix_iff name p, first_suffix_iff name ps)

first_suffix_some :
    (name : String) (ps : List String)
    → (is_some (first_suffix name ps) ≡ true) ↔ Any (λ p. EndsWith p name) ps
unfolding first_suffix
first_suffix_some name [] = ground arith
first_suffix_some name (p ∷ ps) = ground (arith, has_suffix_iff name p, first_suffix_some name ps)

-- No allowance is configured.
abbrev pub Unrestricted : NameMatchLimits → Type 0
Unrestricted limits =
    (limits.allowed_names ≡ []) × ((limits.allowed_prefixes ≡ []) × (limits.allowed_suffixes ≡ []))

-- One of the allowances applies.
abbrev pub AllowedByOne : NameMatchLimits → String → Type 0
AllowedByOne limits name =
    In name limits.allowed_names
    ⊎ (Any (λ p. StartsWith p name) limits.allowed_prefixes
        ⊎ Any (λ s. EndsWith s name) limits.allowed_suffixes)

-- No denial applies, and one allowance does, if there is any.
pub record NameAccepted (limits : NameMatchLimits) (name : String) : Type 0 where
  pub not_forbidden : ¬ In name limits.forbidden_names
  pub no_prefix : All (λ p. ¬ StartsWith p name) limits.forbidden_prefixes
  pub no_suffix : All (λ s. ¬ EndsWith s name) limits.forbidden_suffixes
  pub allowed : Unrestricted limits ⊎ AllowedByOne limits name

allow_violation_iff :
    (limits : NameMatchLimits) (name : String)
    → (allow_violation limits name ≡ none) ↔ (Unrestricted limits ⊎ AllowedByOne limits name)
unfolding allow_violation
allow_violation_iff limits name = ground (
  arith,
  nonempty-eq-false_iff limits.allowed_names,
  nonempty-eq-false_iff limits.allowed_prefixes,
  nonempty-eq-false_iff limits.allowed_suffixes,
  contains_iff limits.allowed_names name,
  first_prefix_some name limits.allowed_prefixes,
  first_suffix_some name limits.allowed_suffixes,
)

deny_or-eq-none_iff :
    {P Q : Type 0} (format : String) (affix : Option String) (later : Option Text)
    → (affix ≡ none) ↔ P
    → (later ≡ none) ↔ Q
    → (deny_or format affix later ≡ none) ↔ (P × Q)
deny_or-eq-none_iff format none later p q = (λ e. (p.0 refl, q.0 e), λ t. q.1 t.1)
deny_or-eq-none_iff format (some a) later p q =
    (λ e. cc, λ t. (let e : some a ≡ none = p.1 t.0 in cc))

-- `nameMatchViolation` gives no reason exactly when the name is accepted.
pub name_match_violation-eq-none_iff :
    (limits : NameMatchLimits) (name : String)
    → (name_match_violation limits name ≡ none) ↔ NameAccepted limits name
unfolding name_match_violation
name_match_violation-eq-none_iff limits name =
    let (f, g) =
      deny_or-eq-none_iff "matches the forbidden prefix %q" _ _
        (first_prefix_iff name limits.forbidden_prefixes)
        (deny_or-eq-none_iff "matches the forbidden suffix %q" _ _
          (first_suffix_iff name limits.forbidden_suffixes) (allow_violation_iff limits name)) in
    elim (Bool-cases (contains limits.forbidden_names name)) [
      | inl h ↦
          let bad = (contains_iff limits.forbidden_names name).0 h in
          rw h (λ e. cc, λ r. absurd (r.not_forbidden bad))
      | inr h ↦
          let good = (contains-eq-false_iff limits.forbidden_names name).0 h in
          rw h (
            λ e.
                let (a, (b, c)) = f e in
                record { not_forbidden = good; no_prefix = a; no_suffix = b; allowed = c },
            λ r. g (r.no_prefix, (r.no_suffix, r.allowed)),
          )
    ]

NameAccepted-of_NamePermitted :
    (limits : NameMatchLimits) (name : String)
    → NamePermitted limits name
    → NameAccepted limits name
NameAccepted-of_NamePermitted limits name h = record {
  not_forbidden = h.not_forbidden;
  no_prefix = h.no_prefix;
  no_suffix = h.no_suffix;
  allowed = ground (arith, h.listed, h.prefixed, h.suffixed);
}

-- A name with no violation of the limits as a subject's name gets no reason for rejection as an
-- identity name under the same limits.
pub name_match_violation_of_check_name_match_limits :
    (limits : NameMatchLimits) (name : String) (path : Text)
    → check_name_match_limits limits name path ≡ []
    → name_match_violation limits name ≡ none
name_match_violation_of_check_name_match_limits limits name path h =
    (name_match_violation-eq-none_iff limits name).1 (
      NameAccepted-of_NamePermitted limits name
        ((check_name_match_limits-eq-nil_iff limits name path).0 h))

-- ===== src/Policy/RoleRefs/Laws.antt =====
-- When a role reference passes the limits.
use auth_operator.Base.{
  String, List, Option, none, some, Bool, true, false, ◌&&◌, [], ◌∷◌, All, Any, nonempty, is_some,
  Text, ◌≡◌, refl, ◌↔◌, ◌⊎◌, arith, append-eq-nil_iff, report-eq-nil_iff, iff_trans,
}
use auth_operator.Kube
use auth_operator.Kube.{LabelSelector, Selectors}
use auth_operator.Api.Policies.{RoleRefLimits}
use auth_operator.Policy.Labels.{Selects}
use auth_operator.Policy.Matcher.{matches_any_wildcard}
use auth_operator.Policy.Matcher.Glob.{Glob}
use auth_operator.Policy.Matcher.Names.{matches_any_wildcard_iff, matches_any_wildcard-eq-false_iff}
use auth_operator.Policy.RoleRefs.{check_forbidden_selector, allowed_by_selector, check_role_ref}

module _ (sel : Selectors) where
  -- The labels are known, and the selector accepts them (or does not).
  abbrev pub Accepted : Option LabelSelector → Option Kube.Labels → Bool → Type 0
  Accepted none role_labels enabled = ⊥
  Accepted (some s) none enabled = ⊥
  Accepted (some s) (some m) enabled = (enabled ≡ true) × Selects sel s (some m)

  abbrev pub Spared : Option LabelSelector → Option Kube.Labels → Bool → Type 0
  Spared none role_labels enabled = Unit
  Spared (some s) none enabled = ⊥
  Spared (some s) (some m) enabled = (enabled ≡ true) × (¬ Selects sel s (some m))

  -- A reference is permitted if no forbidden pattern matches it, a forbidding selector is known to
  -- spare it, and an allowed pattern matches it or the allowing selector accepts it.
  abbrev pub RoleRefPermitted : RoleRefLimits → String → Option Kube.Labels → Bool → Type 0
  RoleRefPermitted limits ref role_labels enabled =
      All (λ p. ¬ Glob p ref) limits.forbidden_role_refs
      × (Spared limits.forbidden_role_ref_selector role_labels enabled
          × (Any (λ p. Glob p ref) limits.allowed_role_refs
              ⊎ Accepted limits.allowed_role_ref_selector role_labels enabled))

  check_forbidden_selector_iff :
      (s : Option LabelSelector) (ref : String) (path : Text) (m : Option Kube.Labels)
      (enabled : Bool)
      → (check_forbidden_selector sel s ref path m enabled ≡ []) ↔ Spared s m enabled
  unfolding check_forbidden_selector
  check_forbidden_selector_iff none ref path m enabled = ground arith
  check_forbidden_selector_iff (some s) ref path none enabled = ground arith
  check_forbidden_selector_iff (some s) ref path (some m) enabled = ground arith

  allowed_by_selector_iff :
      (s : Option LabelSelector) (m : Option Kube.Labels) (enabled : Bool)
      → (allowed_by_selector sel s m enabled ≡ true) ↔ Accepted s m enabled
  unfolding allowed_by_selector
  allowed_by_selector_iff none m enabled = ground arith
  allowed_by_selector_iff (some s) none enabled = ground arith
  allowed_by_selector_iff (some s) (some m) enabled = ground arith

-- Without patterns nothing matches; without the selector in use nothing is selected.
nothing_configured :
    (sel : Selectors) (s : Option LabelSelector) (m : Option Kube.Labels) (enabled : Bool)
    → (enabled && is_some s) ≡ false
    → allowed_by_selector sel s m enabled ≡ false
unfolding allowed_by_selector
nothing_configured sel none m enabled e = refl
nothing_configured sel (some s) m enabled e = ground arith

forbidden_refs_iff :
    (ps : List String) (ref : String)
    → ((nonempty ps && matches_any_wildcard ps ref) ≡ false) ↔ All (λ p. ¬ Glob p ref) ps
forbidden_refs_iff [] ref = ground arith
forbidden_refs_iff (p ∷ ps) ref = matches_any_wildcard-eq-false_iff (p ∷ ps) ref

allowed_refs_iff :
    (ps : List String) (ref : String)
    → ((nonempty ps && matches_any_wildcard ps ref) ≡ true) ↔ Any (λ p. Glob p ref) ps
allowed_refs_iff [] ref = ground arith
allowed_refs_iff (p ∷ ps) ref = matches_any_wildcard_iff (p ∷ ps) ref

-- `checkRoleRef` finds no violation exactly when no forbidden pattern matches the reference, the
-- forbidding selector, if there is one, is known not to select its labels, and an allowed pattern
-- matches it or the allowing selector is known to select them. Without a label getter or the labels
-- nothing is known, so that a forbidding selector alone is a violation.
pub check_role_ref-eq-nil_iff :
    (sel : Selectors) (limits : RoleRefLimits) (ref : String) (path : Text) (m : Option Kube.Labels)
    (enabled : Bool)
    → (check_role_ref sel limits ref path m enabled ≡ [])
      ↔ RoleRefPermitted sel limits ref m enabled
unfolding check_role_ref
check_role_ref-eq-nil_iff sel limits ref path m enabled =
    append-eq-nil_iff
      (iff_trans (report-eq-nil_iff _ _) (forbidden_refs_iff limits.forbidden_role_refs ref))
      (append-eq-nil_iff
        (check_forbidden_selector_iff sel limits.forbidden_role_ref_selector ref path m enabled)
        (ground (
          arith,
          allowed_refs_iff limits.allowed_role_refs ref,
          allowed_by_selector_iff sel limits.allowed_role_ref_selector m enabled,
          nothing_configured sel limits.allowed_role_ref_selector m enabled,
        )))

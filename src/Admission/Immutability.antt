-- ===== src/Admission/Immutability.antt =====
-- namespace_validating_webhook.go: the labels that an update may not change.
pub mod Laws
use auth_operator.Base.{
  String, List, Option, none, some, Bool, true, false, not, ◌&&◌, ◌||◌, [], ◌∷◌, ◌++◌, ◌==◌,
  contains, if◌then◌else◌, is_some, Text, sprintf, str,
}
use auth_operator.Kube.{Labels, Namespace}
use auth_operator.Admission.Ownership.{
  label_key_owner, label_key_tenant, label_key_third_party, label_key_addon, label_key_protected,
  legacy_owner_label, owner_platform, owner_tenant, owner_third_party, owner_addon, label_at,
  label_value,
}
use auth_operator.Admission.Bypass.{BypassCheckResult}
use auth_operator.Admission.Protection.{Response, denied}

-- The labels that are controlled.
unfoldable pub label_keys : Bool → List String
label_keys tdg_migration =
    (label_key_owner ∷ label_key_tenant ∷ label_key_third_party ∷ label_key_addon
      ∷ label_key_protected ∷ [])
    ++ (if tdg_migration then legacy_owner_label ∷ [] else [])

abbrev pub non_platform_owners : List String
non_platform_owners = owner_tenant ∷ owner_third_party ∷ owner_addon ∷ []

unfoldable pub detect_owner_reclassification : Bool → Labels → Labels → BypassCheckResult → Bool
detect_owner_reclassification tdg_migration ns old_ns bypass =
    let old_owner = label_value old_ns label_key_owner in
    let new_owner = label_value ns label_key_owner in
    if not tdg_migration || not bypass.allow_protected_label_changes
    then false
    else if old_owner == new_owner
    then false
    else contains non_platform_owners old_owner && contains non_platform_owners new_owner

abbrev pub is_ownership_key : String → Bool
is_ownership_key key =
    key == label_key_owner
    || (key == label_key_tenant || (key == label_key_third_party || key == label_key_addon))

abbrev pub deny_label : String → Response
deny_label key = denied (sprintf "Modification of label '%s' is not allowed" (str key ∷ []))

-- One key, by its values in the old and the new namespace: whether the change is denied.
unfoldable pub key_denied :
    BypassCheckResult → Bool → Bool → String → Option String → Option String → Bool
key_denied bypass reclassified owned key none none = false
key_denied bypass reclassified owned key none (some value) =
    not bypass.allow_protected_label_changes
key_denied bypass reclassified owned key (some old) none =
    if reclassified && is_ownership_key key
    then false
    else if bypass.allow_protected_label_changes && (key == legacy_owner_label && owned)
    then false
    else true
key_denied bypass reclassified owned key (some old) (some value) =
    if reclassified && is_ownership_key key then false else not (old == value)

-- The loop over the keys; `owned` is whether the new namespace has the owner's label.
unfoldable pub first_denied :
    BypassCheckResult → Bool → Bool → Labels → Labels → List String → Option Response
first_denied bypass reclassified owned ns old_ns [] = none
first_denied bypass reclassified owned ns old_ns (key ∷ keys) =
    let rest = first_denied bypass reclassified owned ns old_ns keys in
    if key_denied bypass reclassified owned key (label_at old_ns key) (label_at ns key)
    then some (deny_label key)
    else rest

unfoldable pub validate_label_immutability :
    Bool → Namespace → Namespace → BypassCheckResult → Option Response
validate_label_immutability tdg_migration ns old_ns bypass =
    first_denied bypass (detect_owner_reclassification tdg_migration ns.labels old_ns.labels bypass)
      (is_some (label_at ns.labels label_key_owner)) ns.labels old_ns.labels
      (label_keys tdg_migration)

abbrev pub cross_validate : String → Option String → Option String → Option Response
cross_validate legacy_owner none old_owner = none
cross_validate legacy_owner (some new_owner) (some old_owner) = none
cross_validate legacy_owner (some new_owner) none =
    let legacy_platform = legacy_owner == "platform" || legacy_owner == "schiff" in
    let new_platform = new_owner == owner_platform in
    if legacy_owner == ""
    then none
    else if legacy_platform && not new_platform
    then some (
        denied (
          sprintf "Legacy platform namespace (%s=%s) cannot be adopted as '%s'"
            (str legacy_owner_label ∷ str legacy_owner ∷ str new_owner ∷ [])))
    else if not legacy_platform && new_platform
    then some (
        denied (
          sprintf "Legacy non-platform namespace (%s=%s) cannot be adopted as 'platform'"
            (str legacy_owner_label ∷ str legacy_owner ∷ [])))
    else none

unfoldable pub cross_validate_legacy_labels : Bool → Namespace → Namespace → Option Response
cross_validate_legacy_labels tdg_migration ns old_ns =
    if not tdg_migration
    then none
    else cross_validate (label_value old_ns.labels legacy_owner_label)
        (label_at ns.labels label_key_owner) (label_at old_ns.labels label_key_owner)

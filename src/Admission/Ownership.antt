-- ===== src/Admission/Ownership.antt =====
-- api/authorization/v1alpha1/labels.go, and the labels of ownership in helpers.go,
-- the namespace webhooks.
use auth_operator.Base.{
  String, List, Option, none, some, Bool, true, false, not, ◌&&◌, [], ◌∷◌, ◌==◌, nonempty, length,
  if◌then◌else◌, is_some, eqb,
}
use auth_operator.Kube.{Labels}

abbrev pub label_key_owner : String
label_key_owner = "t-caas.telekom.com/owner"

abbrev pub label_key_tenant : String
label_key_tenant = "t-caas.telekom.com/tenant"

abbrev pub label_key_third_party : String
label_key_third_party = "t-caas.telekom.com/thirdparty"

abbrev pub label_key_addon : String
label_key_addon = "t-caas.telekom.com/addon"

abbrev pub label_key_protected : String
label_key_protected = "t-caas.telekom.com/protected"

abbrev pub label_key_deletion_protection : String
label_key_deletion_protection = "t-caas.telekom.com/deletion-protection"

abbrev pub annotation_key_allow_deletion : String
annotation_key_allow_deletion = "t-caas.telekom.com/allow-deletion"

abbrev pub legacy_owner_label : String
legacy_owner_label = "schiff.telekom.de/owner"

abbrev pub owner_platform : String
owner_platform = "platform"

abbrev pub owner_tenant : String
owner_tenant = "tenant"

abbrev pub owner_third_party : String
owner_third_party = "thirdparty"

abbrev pub owner_addon : String
owner_addon = "addon"

abbrev pub tracked_ownership_keys : List String
tracked_ownership_keys =
    label_key_owner ∷ label_key_tenant ∷ label_key_third_party ∷ label_key_addon ∷ []

-- `value, ok := m[key]`
unfoldable pub label_at : Labels → String → Option String
label_at [] key = none
label_at ((k, value) ∷ m) key = let rest = label_at m key in if k == key then some value else rest

abbrev pub or_blank : Option String → String
or_blank none = ""
or_blank (some value) = value

-- `m[key]`, "" for a missing key.
abbrev pub label_value : Labels → String → String
label_value m key = or_blank (label_at m key)

-- `m[key] = value`
unfoldable pub set_label : String → String → Labels → Labels
set_label key value [] = (key, value) ∷ []
set_label key value ((k, old) ∷ m) =
    let rest = set_label key value m in if k == key then (key, value) ∷ m else (k, old) ∷ rest

abbrev pub keep_label : String → Option String → Labels → Labels
keep_label key none rest = rest
keep_label key (some value) rest = (key, value) ∷ rest

-- The labels of `m` under the keys.
unfoldable pub tracked_of : Labels → List String → Labels
tracked_of m [] = []
tracked_of m (key ∷ keys) = keep_label key (label_at m key) (tracked_of m keys)

-- Two tracked labels, the owner's and one that is not blank.
abbrev pub is_identified : Labels → String → Bool
is_identified result identity_key =
    eqb (length result) 2 && not (label_value result identity_key == "")

abbrev pub valid_owner : Labels → String → Bool
valid_owner result owner =
    if owner == ""
    then false
    else if owner == owner_platform
    then eqb (length result) 1
    else if owner == owner_tenant
    then is_identified result label_key_tenant
    else if owner == owner_third_party
    then is_identified result label_key_third_party
    else if owner == owner_addon
    then is_identified result label_key_addon
    else false

abbrev pub valid_tracked : Labels → Bool
valid_tracked result =
    if not (nonempty result) then true else valid_owner result (label_value result label_key_owner)

unfoldable pub valid_tracked_ownership_labels : Labels → Bool
valid_tracked_ownership_labels namespace_labels =
    valid_tracked (tracked_of namespace_labels tracked_ownership_keys)

-- The first of the keys that stands on the target and not among the inherited labels, "" for none.
abbrev pub extra_key : Labels → Labels → List String → String
extra_key target inherited [] = ""
extra_key target inherited (key ∷ keys) =
    let rest = extra_key target inherited keys in
    if is_some (label_at target key) && not (is_some (label_at inherited key)) then key else rest

unfoldable pub find_extra_tracked_key : Labels → Labels → String
find_extra_tracked_key target inherited = extra_key target inherited tracked_ownership_keys

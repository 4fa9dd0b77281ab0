-- ===== src/Admission/Selectors.antt =====
-- The labels of ownership that a selector stands for, in binddefinition_webhook.go and
-- namespace_mutating_webhook.go.
use auth_operator.Base.{
  ℕ, ◌+◌, String, List, Option, none, some, Bool, true, false, not, ◌&&◌, ◌||◌, [], ◌∷◌, ◌==◌,
  contains, nonempty, if◌then◌else◌, is_some, eqb, leb,
}
use auth_operator.Kube.{Labels, LabelSelector, Requirement}
use auth_operator.Admission.Ownership.{
  label_key_owner, label_key_tenant, label_key_third_party, label_key_addon, owner_tenant,
  owner_third_party, owner_addon, tracked_ownership_keys, label_at, label_value, set_label,
  valid_tracked_ownership_labels,
}

-- The variables of `AddonNamespaceSelectorIsScoped`; `pin` is none where `hasPin` is false.
pub record AddonScope : Type 0 where
  pub targets_addon : Bool
  pub explicit_addon : Bool
  pub excludes_addon : Bool
  pub addon_absent : Bool
  pub pin : Option String
  pub addon_expressions : ℕ
  pub valid_pin : Bool

abbrev pub targets : AddonScope → Bool → AddonScope
targets s explicit = record {
  targets_addon = true;
  explicit_addon = explicit || s.explicit_addon;
  excludes_addon = s.excludes_addon;
  addon_absent = s.addon_absent;
  pin = s.pin;
  addon_expressions = s.addon_expressions;
  valid_pin = s.valid_pin;
}

abbrev pub excludes : AddonScope → Bool → AddonScope
excludes s absent = record {
  targets_addon = s.targets_addon;
  explicit_addon = s.explicit_addon;
  excludes_addon = true;
  addon_absent = absent || s.addon_absent;
  pin = s.pin;
  addon_expressions = s.addon_expressions;
  valid_pin = s.valid_pin;
}

abbrev pub owner_expression : AddonScope → Requirement → AddonScope
owner_expression s expr =
    if expr.operator == "In"
    then if contains expr.values owner_addon then targets s true else excludes s false
    else if expr.operator == "NotIn"
    then if contains expr.values owner_addon then excludes s false else targets s false
    else if expr.operator == "Exists"
    then targets s false
    else if expr.operator == "DoesNotExist"
    then excludes s false
    else s

abbrev pub pinned : AddonScope → Option String → Bool → AddonScope
pinned s pin valid = record {
  targets_addon = s.targets_addon;
  explicit_addon = s.explicit_addon;
  excludes_addon = s.excludes_addon;
  addon_absent = s.addon_absent;
  pin = pin;
  addon_expressions = s.addon_expressions + 1;
  valid_pin = valid;
}

-- A pin that differs from the one before.
abbrev pub conflicts : Option String → String → Bool
conflicts none value = false
conflicts (some pin) value = not (pin == value)

abbrev pub pin_values : AddonScope → Bool → List String → AddonScope
pin_values s is_in [] = pinned s s.pin false
pin_values s is_in (value ∷ []) =
    if not is_in || value == ""
    then pinned s s.pin false
    else pinned s (some value) (s.valid_pin && not (conflicts s.pin value))
pin_values s is_in (value ∷ other ∷ values) = pinned s s.pin false

abbrev pub addon_expression : AddonScope → Requirement → AddonScope
addon_expression s expr =
    pin_values (if expr.operator == "DoesNotExist" then excludes s true else s)
      (expr.operator == "In") expr.values

-- The loop over the expressions.
unfoldable pub scan_expressions : AddonScope → List Requirement → AddonScope
scan_expressions s [] = s
scan_expressions s (expr ∷ exprs) =
    scan_expressions
      (if expr.key == label_key_owner
        then owner_expression s expr
        else if expr.key == label_key_addon
        then addon_expression s expr
        else s)
      exprs

-- A pin that is not the blank value; without a pin, valid.
abbrev pub pin_is_valid : Option String → Bool
pin_is_valid none = true
pin_is_valid (some pin) = not (pin == "")

abbrev pub owner_excludes : Option String → Bool
owner_excludes none = false
owner_excludes (some owner) = not (owner == owner_addon)

abbrev pub scope_start : LabelSelector → AddonScope
scope_start selector =
    let addon = label_value selector.match_labels label_key_owner == owner_addon in
    record {
      targets_addon = addon;
      explicit_addon = addon;
      excludes_addon = owner_excludes (label_at selector.match_labels label_key_owner);
      addon_absent = false;
      pin = label_at selector.match_labels label_key_addon;
      addon_expressions = 0;
      valid_pin = pin_is_valid (label_at selector.match_labels label_key_addon);
    }

abbrev pub scope_verdict : AddonScope → Bool
scope_verdict s =
    if is_some s.pin || leb 1 s.addon_expressions
    then if not (is_some s.pin)
        && (eqb s.addon_expressions 1 && (s.addon_absent && not s.explicit_addon))
      then true
      else is_some s.pin && (s.valid_pin && leb s.addon_expressions 1)
    else not s.explicit_addon && (not s.targets_addon || s.excludes_addon)

unfoldable pub addon_namespace_selector_is_scoped : LabelSelector → Bool
addon_namespace_selector_is_scoped selector =
    scope_verdict (scan_expressions (scope_start selector) selector.match_expressions)

-- The loops of `getLabelsFromNamespaceSelector`.
abbrev pub match_labels_of : Labels → Labels
match_labels_of [] = []
match_labels_of ((key, value) ∷ m) =
    let rest = match_labels_of m in
    if contains tracked_ownership_keys key then (key, value) ∷ rest else rest

abbrev pub take_single : String → List String → Labels → Labels
take_single key [] labels = labels
take_single key (value ∷ []) labels = set_label key value labels
take_single key (value ∷ other ∷ values) labels = labels

abbrev pub expression_labels : List Requirement → Labels → Labels
expression_labels [] labels = labels
expression_labels (expr ∷ exprs) labels = expression_labels exprs (
    if contains tracked_ownership_keys expr.key && expr.operator == "In"
    then take_single expr.key expr.values labels
    else labels)

unfoldable pub get_labels_from_namespace_selector : LabelSelector → Labels
get_labels_from_namespace_selector selector =
    expression_labels selector.match_expressions (match_labels_of selector.match_labels)

abbrev pub differs_from : Option String → String → Bool
differs_from none owner = false
differs_from (some value) owner = not (value == owner)

-- One identity: where its label is set, the owner must be `owner` or is set to it.
abbrev pub complete_owner : String → String → Labels → Option Labels
complete_owner key owner labels =
    if label_value labels key == ""
    then some labels
    else if differs_from (label_at labels label_key_owner) owner
    then none
    else some (set_label label_key_owner owner labels)

abbrev pub then_owner : String → String → Option Labels → Option Labels
then_owner key owner none = none
then_owner key owner (some labels) = complete_owner key owner labels

abbrev pub valid_or_none : Option Labels → Labels
valid_or_none none = []
valid_or_none (some labels) = if not (valid_tracked_ownership_labels labels) then [] else labels

unfoldable pub complete_tracked_labels : LabelSelector → Labels
complete_tracked_labels selector =
    let labels = get_labels_from_namespace_selector selector in
    if not (addon_namespace_selector_is_scoped selector)
    then []
    else if not (nonempty labels)
    then []
    else valid_or_none (
        then_owner label_key_addon owner_addon (
          then_owner label_key_third_party owner_third_party
            (complete_owner label_key_tenant owner_tenant labels)))

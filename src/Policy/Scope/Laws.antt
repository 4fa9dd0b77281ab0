-- ===== src/Policy/Scope/Laws.antt =====
-- When a namespace lies in a policy's scope.
use auth_operator.Base.{
  String, List, Option, none, some, Bool, true, false, [], ◌∷◌, In, contains, contains_iff, ◌≡◌,
  ◌↔◌, ◌⊎◌, arith, eq_iff, ◌&&◌, not, is_some, eqb, length, if_true_iff, iff_trans, or_right_iff,
}
use auth_operator.Kube.{LabelSelector, Selectors}
use auth_operator.Api.Policies.{PolicyScope}
use auth_operator.Policy.Labels.{LabelGetter, Selects}
use auth_operator.Policy.Scope.{namespace_in_scope, selected_in_scope}

module _ (sel : Selectors) (lg : Option LabelGetter) where
  -- The namespace exists and the selector accepts its labels.
  abbrev pub SelectedBy : LabelSelector → Option LabelGetter → String → Type 0
  SelectedBy selector none namespace = ⊥
  SelectedBy selector (some getter) namespace =
      ((getter.get_namespace_labels namespace).1 ≡ true)
      × Selects sel selector (getter.get_namespace_labels namespace).0

  abbrev pub SelectorAdmits : Option LabelSelector → String → Type 0
  SelectorAdmits none namespace = ⊥
  SelectorAdmits (some selector) namespace = SelectedBy selector lg namespace

  -- A namespace is in scope if it is listed, or selected, or if the scope is "*" and nothing else.
  abbrev pub InScope : PolicyScope → String → Type 0
  InScope scope namespace =
      In namespace scope.namespaces
      ⊎ SelectorAdmits scope.namespace_selector namespace
      ⊎ ((scope.namespaces ≡ "*" ∷ []) × (scope.namespace_selector ≡ none))

-- The scope is "*" alone.
bare_iff :
    (names : List String) (s : Option LabelSelector)
    → ((contains names "*" && eqb (length names) 1 && not (is_some s)) ≡ true)
      ↔ ((names ≡ "*" ∷ []) × (s ≡ none))
bare_iff [] s = ground arith
bare_iff (n ∷ []) none = ground (arith, eq_iff n "*")
bare_iff (n ∷ []) (some s) = ground (arith, eq_iff n "*")
bare_iff (n ∷ m ∷ ns) s = ground arith

selected_in_scope_iff :
    (sel : Selectors) (lg : Option LabelGetter) (bare : Bool) (s : Option LabelSelector)
    (ns : String)
    → (selected_in_scope sel lg bare s lg ns ≡ true) ↔ (SelectorAdmits sel lg s ns ⊎ (bare ≡ true))
unfolding selected_in_scope
selected_in_scope_iff sel lg bare none ns = ground arith
selected_in_scope_iff sel none bare (some s) ns = ground arith
selected_in_scope_iff sel (some g) bare (some s) ns = ground arith

-- `namespaceInScope` holds exactly when the namespace is in scope as `InScope` says.
pub namespace_in_scope_iff :
    (sel : Selectors) (lg : Option LabelGetter) (scope : PolicyScope) (ns : String)
    → (namespace_in_scope sel lg scope ns ≡ true) ↔ InScope sel lg scope ns
unfolding namespace_in_scope
namespace_in_scope_iff sel lg scope ns =
    at_fields sel lg scope.namespaces scope.namespace_selector ns
  where
    at_fields :
        (sel : Selectors) (lg : Option LabelGetter) (names : List String) (s : Option LabelSelector)
        (ns : String)
        → (namespace_in_scope sel lg (record { namespace_selector = s; namespaces = names }) ns
            ≡ true)
          ↔ InScope sel lg (record { namespace_selector = s; namespaces = names }) ns
    at_fields sel lg [] none ns = ground arith
    at_fields sel lg [] (some s) ns = ground (arith, selected_in_scope_iff sel lg false (some s) ns)
    at_fields sel lg (n ∷ names) s ns =
        if_true_iff _ _ (contains_iff (n ∷ names) ns)
          (iff_trans (selected_in_scope_iff sel lg _ s ns) (or_right_iff (bare_iff (n ∷ names) s)))

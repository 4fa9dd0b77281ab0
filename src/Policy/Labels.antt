-- ===== src/Policy/Labels.antt =====
-- pkg/policy/{violation,label_getter}.go and matchesSelector of pkg/policy/evaluator.go.
use auth_operator.Base.{String, List, Option, none, some, Bool, true, false, [], ◌≡◌, Text, All}
use auth_operator.Kube.{LabelSelector, Selectors}
use auth_operator.Kube

pub record Violation : Type 0 where
  pub field : Text
  pub message : Text

-- An API result with its error, of which only the text is used.
pub data Fallible {ℓ} (A : Type ℓ) : Type ℓ where
  ok : A → Fallible A
  failed : (error : String) → Fallible A

-- The interface LabelGetter: a map that may be nil, with whether the object was found. One
-- evaluation reads one state of the cluster.
pub record LabelGetter : Type 0 where
  pub get_namespace_labels : String → Option Kube.Labels × Bool
  pub get_cluster_role_labels : String → Option Kube.Labels × Bool
  pub get_role_labels : String → String → Option Kube.Labels × Bool
  pub list_namespaces_by_selector : LabelSelector → Fallible (List String)

-- Reading a nil map is reading an empty one.
abbrev pub or_empty : Option Kube.Labels → Kube.Labels
or_empty none = []
or_empty (some m) = m

module _ (sel : Selectors) where
  unfoldable pub matches_selector : LabelSelector → Option Kube.Labels → Bool
  matches_selector selector obj_labels = elim (sel.as_selector selector) [
    | none ↦ false
    | some matches ↦ matches (or_empty obj_labels)
  ]

  -- The selector is valid and accepts the labels.
  abbrev pub Selects : LabelSelector → Option Kube.Labels → Type 0
  Selects selector obj_labels = matches_selector selector obj_labels ≡ true

-- A selector over namespaces can be resolved, and `P` holds of every namespace that it names.
abbrev pub AllOk : (String → Type 0) → Fallible (List String) → Type 0
AllOk P (failed error) = ⊥
AllOk P (ok names) = All P names

abbrev pub AllResolved : Option LabelGetter → (String → Type 0) → LabelSelector → Type 0
AllResolved none P selector = ⊥
AllResolved (some getter) P selector = AllOk P (getter.list_namespaces_by_selector selector)

-- The namespaces that a selector names, none where it cannot be resolved.
abbrev pub names_of : Fallible (List String) → List String
names_of (ok names) = names
names_of (failed error) = []

abbrev pub resolved : Option LabelGetter → LabelSelector → List String
resolved none selector = []
resolved (some getter) selector = names_of (getter.list_namespaces_by_selector selector)

-- ===== src/Admission/Validate/Selection.antt =====
-- What the webhook compares to authorize: subjects, the selectors of bindings, the definitions read
-- again, and the tracked labels of two namespaces.
use auth_operator.Base.{
  String, List, Option, none, some, Bool, true, false, [], ◌∷◌, ◌==◌, eq_iff, eq-false_iff, all,
  nonempty, on_some-eq-some, ◌≡◌, ◌≢◌, refl, ap, ◌⊎◌, inl, inr, arith, Any, All, Bool-cases,
}
use auth_operator.Kube.{Labels, LabelSelector, Selectors, Namespace, Lookup, found, missing, unread}
use auth_operator.Api.Definitions.{BindDefinition}
use auth_operator.Admission.Ownership.{
  label_key_owner, label_key_addon, label_key_protected, tracked_ownership_keys, label_at,
  label_value, set_label,
}
use auth_operator.Admission.Selectors.{addon_namespace_selector_is_scoped, complete_tracked_labels}
use auth_operator.Admission.Validate.{
  same_label, addon_selector_authorizes_namespace, has_exact_tracked_labels, with_protected,
  namespace_matches_selector, matches_synthetic, matches_for_operation, fresh_one, fresh_of,
}

-- The selector is scoped, and where the namespace is an add-on's, pins an add-on.
abbrev pub IsScopedFor : Namespace → LabelSelector → Type 0
IsScopedFor ns selector =
    (addon_namespace_selector_is_scoped selector ≡ true)
    × (((label_value ns.labels label_key_owner ≢ "addon")
          × (label_value ns.labels label_key_addon ≡ ""))
        ⊎ (label_value (complete_tracked_labels selector) label_key_addon ≢ ""))

addon_selector_authorizes_namespace-IsScopedFor :
    (ns : Namespace) (selector : LabelSelector)
    → addon_selector_authorizes_namespace ns selector ≡ true
    → IsScopedFor ns selector
unfolding addon_selector_authorizes_namespace
addon_selector_authorizes_namespace-IsScopedFor ns selector h = ground (
  arith,
  eq_iff (label_value ns.labels label_key_owner) "addon",
  eq_iff (label_value ns.labels label_key_addon) "",
  eq_iff (label_value (complete_tracked_labels selector) label_key_addon) "",
)

pub same_label-eq : (a b : Option String) → same_label a b ≡ true → a ≡ b
same_label-eq none none h = refl
same_label-eq none (some b) h = cc
same_label-eq (some a) none h = cc
same_label-eq (some a) (some b) h = ap some ((eq_iff a b).0 h)

-- The same value under the key in both, or none.
abbrev pub Same : Labels → Labels → String → Type 0
Same a b key = label_at a key ≡ label_at b key

all-same_label :
    (a b : Labels) (keys : List String)
    → all (λ key. same_label (label_at a key) (label_at b key)) keys ≡ true
    → All (Same a b) keys
all-same_label a b [] h = tt
all-same_label a b (key ∷ keys) h = (
  same_label-eq (label_at a key) (label_at b key) (ground arith),
  all-same_label a b keys (ground arith),
)

-- The labels that a namespace to be created has for a selector: those the selector stands for, its
-- name and the label of protection.
abbrev pub labels_to_be : Namespace → Labels → Labels
labels_to_be ns expected =
    set_label "kubernetes.io/metadata.name" ns.name
      (with_protected (label_at ns.labels label_key_protected) expected)

-- What it means that a selector matches a namespace that is created, and one that is there.
abbrev pub MatchesCreated : Namespace → LabelSelector → (Labels → Bool) → Type 0
MatchesCreated ns selector m =
    ((complete_tracked_labels selector ≡ [])
      ⊎ All (Same ns.labels (complete_tracked_labels selector)) tracked_ownership_keys)
    × (m (labels_to_be ns (complete_tracked_labels selector)) ≡ true)

matches_synthetic-true :
    (sel : Selectors) (ns : Namespace) (expected : Labels) (m : Labels → Bool)
    → matches_synthetic sel ns expected m ≡ some true
    → ((expected ≡ []) ⊎ All (Same ns.labels expected) tracked_ownership_keys)
      × (m (labels_to_be ns expected) ≡ true)
unfolding has_exact_tracked_labels
matches_synthetic-true sel ns [] m h = (inl refl, cc)
matches_synthetic-true sel ns (kv ∷ expected) m h =
    elim (Bool-cases (has_exact_tracked_labels ns.labels (kv ∷ expected))) [
      | inl exact ↦ (
        inr (all-same_label ns.labels (kv ∷ expected) tracked_ownership_keys exact),
        ground arith,
      )
      | inr differs ↦ (let c : some false ≡ some true = ground arith in cc)
    ]

module _ (sel : Selectors) (ns : Namespace) (selector : LabelSelector) where
  namespace_matches_selector-true :
      namespace_matches_selector sel ns selector ≡ some true
      → IsScopedFor ns selector
        × ((m : Labels → Bool) × (sel.as_selector selector ≡ some m) × (m ns.labels ≡ true))
  unfolding namespace_matches_selector
  namespace_matches_selector-true h =
      elim (Bool-cases (addon_selector_authorizes_namespace ns selector)) [
        | inr out ↦ (let c : some false ≡ some true = ground arith in cc)
        | inl scoped ↦
            let (m, valid, e) =
              on_some-eq-some (sel.as_selector selector) (λ m. some (m ns.labels)) {b = true}
                (ground arith) in
            (
              addon_selector_authorizes_namespace-IsScopedFor ns selector scoped,
              (m, valid, (let t : m ns.labels ≡ true = cc in t)),
            )
      ]

  -- The selector may match the namespace, is valid, and matches it: for CREATE the labels that it
  -- stands for, else those there.
  abbrev pub Chooses : String → Type 0
  Chooses operation =
      IsScopedFor ns selector
      × ((m : Labels → Bool) × (sel.as_selector selector ≡ some m)
          × (((operation ≡ "CREATE") × MatchesCreated ns selector m)
              ⊎ ((operation ≢ "CREATE") × (m ns.labels ≡ true))))

  pub matches_for_operation-Chooses :
      (operation : String)
      → matches_for_operation sel operation ns selector ≡ some true
      → Chooses operation
  unfolding matches_for_operation
  matches_for_operation-Chooses operation h =
      let create = eq_iff operation "CREATE" in
      elim (Bool-cases (addon_selector_authorizes_namespace ns selector)) [
        | inr out ↦ (let c : some false ≡ some true = ground arith in cc)
        | inl scoped ↦ elim (Bool-cases (operation == "CREATE")) [
          | inr there ↦
              let (guarded, (m, valid, e)) = namespace_matches_selector-true (ground arith) in
              (guarded, (m, valid, inr ((eq-false_iff _ create).0 there, e)))
          | inl new ↦
              let (m, valid, e) =
                on_some-eq-some (sel.as_selector selector)
                  (λ m. matches_synthetic sel ns (complete_tracked_labels selector) m) {b = true}
                  (ground arith) in
              (
                addon_selector_authorizes_namespace-IsScopedFor ns selector scoped,
                (
                  m,
                  valid,
                  inl (
                    create.0 new,
                    matches_synthetic-true sel ns (complete_tracked_labels selector) m e,
                  ),
                ),
              )
        ]
      ]

-- The definition is what reading the name of a candidate gives.
abbrev pub IsReadOf :
    (String → Lookup BindDefinition) → List BindDefinition → BindDefinition → Type 0
IsReadOf get candidates bd = Any (λ (c : BindDefinition). get c.name ≡ found bd) candidates

module _ (get : String → Lookup BindDefinition) where
  IsReadOf-later :
      (c : BindDefinition) (candidates fresh : List BindDefinition)
      → All (IsReadOf get candidates) fresh
      → All (IsReadOf get (c ∷ candidates)) fresh
  IsReadOf-later c candidates [] h = tt
  IsReadOf-later c candidates (bd ∷ fresh) (here, h) =
      (inr here, IsReadOf-later c candidates fresh h)

  fresh_one-IsReadOf :
      (c : BindDefinition) (candidates : List BindDefinition) (l : Lookup BindDefinition)
      (rest : Option (List BindDefinition)) {fresh : List BindDefinition}
      → get c.name ≡ l
      → fresh_one l rest ≡ some fresh
      → ((later : List BindDefinition)
          → rest ≡ some later
          → All (IsReadOf get (c ∷ candidates)) later)
      → All (IsReadOf get (c ∷ candidates)) fresh
  fresh_one-IsReadOf c candidates missing rest {fresh} e h later = later fresh h
  fresh_one-IsReadOf c candidates (unread error) rest e h later = cc
  fresh_one-IsReadOf c candidates (found bd) rest {fresh} e h later =
      elim (Bool-cases (nonempty bd.spec.role_bindings)) [
        | inr none_bound ↦ later fresh (ground arith)
        | inl bound ↦
            let (behind, read, same) =
              on_some-eq-some rest (λ fresh. some (bd ∷ fresh)) {b = fresh} (ground arith) in
            let list : bd ∷ behind ≡ fresh = cc in rw (← list) (inl e, later behind read)
      ]

  pub fresh_of-IsReadOf :
      (candidates : List BindDefinition) {fresh : List BindDefinition}
      → fresh_of get candidates ≡ some fresh
      → All (IsReadOf get candidates) fresh
  unfolding fresh_of
  fresh_of-IsReadOf [] {fresh} h = (let e : [] ≡ fresh = cc in rw (← e) tt)
  fresh_of-IsReadOf (c ∷ candidates) {fresh} h =
      fresh_one-IsReadOf c candidates (get c.name) (fresh_of get candidates) {fresh = fresh} refl h
        (λ later e. IsReadOf-later c candidates later (fresh_of-IsReadOf candidates e))

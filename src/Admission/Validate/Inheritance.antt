-- ===== src/Admission/Validate/Inheritance.antt =====
-- The caller as a subject, and the tracked labels of its own namespace.
use auth_operator.Base.{
  String, List, Option, none, some, true, false, not, ◌&&◌, [], ◌∷◌, ◌==◌, eq_iff, contains_iff,
  all, nonempty, is_some, ◌≡◌, ◌≢◌, refl, sym, ap, ◌∙◌, ◌⊎◌, inl, inr, arith, Any, All, In,
  Bool-cases,
}
use auth_operator.Kube.{Labels, Namespace, Subject, Lookup, found, missing, unread}
use auth_operator.Admission.Ownership.{
  tracked_ownership_keys, label_at, keep_label, tracked_of, valid_tracked_ownership_labels,
  extra_key, find_extra_tracked_key,
}
use auth_operator.Admission.Bypass.{ServiceAccountInfo, subject_is, matches_subjects}
use auth_operator.Admission.Validate.{
  same_label, valid_labels, tracked_labels_of, get_sa_namespace_tracked_labels, labels_match,
}
use auth_operator.Admission.Validate.Selection.{Same, same_label-eq}

-- The subject is the user, a group of the user or the service account.
abbrev pub IsCaller : String → List String → ServiceAccountInfo → Subject → Type 0
IsCaller username groups sa_info subject =
    ((subject.kind ≡ "User") × (subject.name ≡ username))
    ⊎ ((subject.kind ≡ "Group") × In subject.name groups)
    ⊎ ((subject.kind ≡ "ServiceAccount")
        × (sa_info.is_service_account ≡ true)
        × (subject.namespace ≡ sa_info.namespace)
        × (subject.name ≡ sa_info.name))

pub matches_subjects-IsCaller :
    (username : String) (groups : List String) (sa_info : ServiceAccountInfo)
    (subjects : List Subject)
    → matches_subjects username groups sa_info subjects ≡ true
    → Any (IsCaller username groups sa_info) subjects
unfolding matches_subjects
matches_subjects-IsCaller username groups sa_info [] h = cc
matches_subjects-IsCaller username groups sa_info (s ∷ subjects) h =
    elim (Bool-cases (subject_is username groups sa_info s)) [
      | inl hit ↦ inl (
          ground (
            arith,
            eq_iff s.kind "User",
            eq_iff s.kind "Group",
            eq_iff s.kind "ServiceAccount",
            eq_iff s.name username,
            contains_iff groups s.name,
            eq_iff s.namespace sa_info.namespace,
            eq_iff s.name sa_info.name,
          ))
      | inr miss ↦ inr (matches_subjects-IsCaller username groups sa_info subjects (ground arith))
    ]

module _ (target own : Labels) where
  -- A label of the second namespace stands on the first.
  abbrev Stands : String → Type 0
  Stands key = (v : String) → label_at own key ≡ some v → label_at target key ≡ some v

  keep_label-Stands :
      (key : String) (keys : List String) (o : Option String)
      → label_at own key ≡ o
      → all
          (λ (kv : String × String). same_label (label_at target kv.0) (some kv.1))
          (keep_label key o (tracked_of own keys))
        ≡ true
      → Stands key
        × (all
              (λ (kv : String × String). same_label (label_at target kv.0) (some kv.1))
              (tracked_of own keys)
            ≡ true)
  keep_label-Stands key keys none e h = (λ v f. cc, h)
  keep_label-Stands key keys (some w) e h = (
    λ v f.
        (let same : label_at target key ≡ some w =
            same_label-eq (label_at target key) (some w) (ground arith) in
          let w_is_v : some w ≡ some v = sym e ∙ f in same ∙ w_is_v),
    ground arith,
  )

  tracked_of-Stands :
      (keys : List String)
      → all
          (λ (kv : String × String). same_label (label_at target kv.0) (some kv.1))
          (tracked_of own keys)
        ≡ true
      → All Stands keys
  unfolding tracked_of
  tracked_of-Stands [] h = tt
  tracked_of-Stands (key ∷ keys) h =
      let (here, later) = keep_label-Stands key keys (label_at own key) refl h in
      (here, tracked_of-Stands keys later)

  is_some-tracked_of :
      (key : String) (keys : List String)
      → is_some (label_at (tracked_of own keys) key) ≡ true
      → is_some (label_at own key) ≡ true
  unfolding tracked_of label_at
  is_some-tracked_of key [] h = cc
  is_some-tracked_of key (k ∷ keys) h = kept (is_some-tracked_of key keys) (label_at own k) refl h
    where
      kept :
          (is_some (label_at (tracked_of own keys) key) ≡ true → is_some (label_at own key) ≡ true)
          → (o : Option String) → label_at own k ≡ o
          → is_some (label_at (keep_label k o (tracked_of own keys)) key) ≡ true
          → is_some (label_at own key) ≡ true
      kept later none e t = later t
      kept later (some v) e t = elim (Bool-cases (k == key)) [
        | inl same ↦ (let s : k ≡ key = (eq_iff k key).0 same in rw (← s) (rw e refl))
        | inr other ↦ later (ground arith)
      ]

  -- No key stands on the target alone.
  abbrev NotExtra : String → Type 0
  NotExtra key = label_at own key ≡ none → label_at target key ≡ none

  extra_key-NotExtra :
      (inherited : Labels) (keys : List String)
      → ((key : String)
          → is_some (label_at inherited key) ≡ true
          → is_some (label_at own key) ≡ true)
      → All (λ key. (key == "") ≡ false) keys
      → (extra_key target inherited keys == "") ≡ true
      → All NotExtra keys
  extra_key-NotExtra inherited [] from named h = tt
  extra_key-NotExtra inherited (key ∷ keys) from (this, named) h =
      elim (Bool-cases (is_some (label_at target key) && not (is_some (label_at inherited key)))) [
        | inl extra ↦ (let c : false ≡ true = ground arith in cc)
        | inr plain ↦ (
          λ e. not_extra (label_at target key) (from key) e plain,
          extra_key-NotExtra inherited keys from named (ground arith),
        )
      ]
    where
      not_extra :
          (o : Option String)
          → (is_some (label_at inherited key) ≡ true → is_some (label_at own key) ≡ true)
          → label_at own key ≡ none
          → (is_some o && not (is_some (label_at inherited key))) ≡ false
          → o ≡ none
      not_extra none f e t = refl
      not_extra (some v) f e t =
          let there : is_some (label_at own key) ≡ true = f (ground arith) in
          let absent : is_some (label_at own key) ≡ false = ap is_some e in cc

  both_ways :
      (keys : List String) → All Stands keys → All NotExtra keys → All (Same target own) keys
  both_ways [] s n = tt
  both_ways (key ∷ keys) (here, s) (not_extra, n) =
      (same (label_at own key) refl, both_ways keys s n)
    where
      same : (o : Option String) → label_at own key ≡ o → label_at target key ≡ label_at own key
      same none e = not_extra e ∙ sym e
      same (some v) e = here v e ∙ sym e

  some_tracked :
      (keys : List String)
      → nonempty (tracked_of own keys) ≡ true
      → Any (λ key. label_at own key ≢ none) keys
  unfolding tracked_of
  some_tracked [] h = cc
  some_tracked (key ∷ keys) h = kept (some_tracked keys) (label_at own key) refl h
    where
      kept :
          (nonempty (tracked_of own keys) ≡ true → Any (λ key. label_at own key ≢ none) keys)
          → (o : Option String) → label_at own key ≡ o
          → nonempty (keep_label key o (tracked_of own keys)) ≡ true
          → Any (λ key. label_at own key ≢ none) (key ∷ keys)
      kept later none e t = inr (later t)
      kept later (some v) e t = inl (λ f. (let c : none ≡ some v = sym f ∙ e in cc))

  -- Both have the same tracked labels.
  labels_match-Same :
      labels_match target (tracked_of own tracked_ownership_keys) ≡ true
      → All (Same target own) tracked_ownership_keys
  unfolding labels_match find_extra_tracked_key
  labels_match-Same h =
      both_ways tracked_ownership_keys (tracked_of-Stands tracked_ownership_keys (ground arith)) (
        extra_key-NotExtra (tracked_of own tracked_ownership_keys) tracked_ownership_keys
          (λ key. is_some-tracked_of key tracked_ownership_keys) (refl, (refl, (refl, (refl, tt))))
          (ground arith))

-- The namespace of the account is read, has tracked labels, and the same ones as the other.
abbrev pub SharesOwnership : (String → Lookup Namespace) → ServiceAccountInfo → Namespace → Type 0
SharesOwnership get sa_info ns =
    (sa_info.is_service_account ≡ true)
    × ((own : Namespace) × (get sa_info.namespace ≡ found own)
        × Any (λ key. label_at own.labels key ≢ none) tracked_ownership_keys
        × All (Same ns.labels own.labels) tracked_ownership_keys)

tracked_labels_of-shared :
    (l : Lookup Namespace) (ns : Namespace) (inherited : Labels)
    → tracked_labels_of l ≡ some inherited
    → nonempty inherited ≡ true
    → labels_match ns.labels inherited ≡ true
    → (own : Namespace) × (l ≡ found own)
      × Any (λ key. label_at own.labels key ≢ none) tracked_ownership_keys
      × All (Same ns.labels own.labels) tracked_ownership_keys
tracked_labels_of-shared missing ns inherited e some_label match =
    let none_read : [] ≡ inherited = cc in
    (let f : false ≡ nonempty inherited = ap nonempty none_read in cc)
tracked_labels_of-shared (unread error) ns inherited e some_label match = cc
tracked_labels_of-shared (found own) ns inherited e some_label match =
    let tracked = tracked_of own.labels tracked_ownership_keys in
    let read : valid_labels tracked ≡ inherited = cc in
    elim (Bool-cases (valid_tracked_ownership_labels tracked)) [
      | inr invalid ↦
          let none_kept : [] ≡ inherited = ground arith in
          (let f : false ≡ nonempty inherited = ap nonempty none_kept in cc)
      | inl valid ↦
          let same : tracked ≡ inherited = ground arith in
          (
            own,
            refl,
            some_tracked ns.labels own.labels tracked_ownership_keys (rw same some_label),
            labels_match-Same ns.labels own.labels (rw same match),
          )
    ]

pub get_sa_namespace_tracked_labels-SharesOwnership :
    (get : String → Lookup Namespace) (sa_info : ServiceAccountInfo) (ns : Namespace)
    (inherited : Labels)
    → sa_info.is_service_account ≡ true
    → get_sa_namespace_tracked_labels get sa_info ≡ some inherited
    → nonempty inherited ≡ true
    → labels_match ns.labels inherited ≡ true
    → SharesOwnership get sa_info ns
unfolding get_sa_namespace_tracked_labels
get_sa_namespace_tracked_labels-SharesOwnership get sa_info ns inherited account e some_label
      match =
    (
      account,
      tracked_labels_of-shared (get sa_info.namespace) ns inherited (ground arith) some_label match,
    )

-- ===== src/Authorize/Bridge/Index.antt =====
-- BindDefinitionBridgeSubjectKey and BindDefinitionBridgeSubjectFunc of pkg/indexer/indexer.go: the
-- keys under which the bridge finds its candidates.
use Prim.Native.String
use text.Mathlib.TextLemmas.{append_assoc, append-eq-nil_iff}
use auth_operator.Base.{
  ◌+◌, String, List, none, Bool, true, false, not, ◌&&◌, [], ◌∷◌, ◌++◌, ◌==◌, eq_iff, any, contains,
  nonempty, if◌then◌else◌, is_some, ltb, length, ◌≡◌, ◌≢◌, refl, ap, ◌⊎◌, inl, inr, arith, Any, In,
  contains_iff, eq-false_iff, Bool-cases,
}
use auth_operator.Kube.{Subject, SubjectAccessReview}
use auth_operator.Api.Definitions.{NamespaceBinding, BindDefinition}
use auth_operator.Policy.Subjects.{user_kind, group_kind, service_account_kind}
use auth_operator.Authorize.Bridge.{
  rbac_group, account_user, subject_matches, bind_definition_subject_matches, group_keys,
  request_keys,
}

unfoldable pub bridge_subject_key : Subject → String
bridge_subject_key subject =
    if subject.kind == service_account_kind
    then (if subject.api_group == "" && (not (subject.namespace == "") && not (subject.name == ""))
        then String.◌++◌ "u:system:serviceaccount:"
            (String.◌++◌ subject.namespace (String.◌++◌ ":" subject.name))
        else "")
    else if subject.kind == user_kind
    then (if subject.api_group == rbac_group
          && (subject.namespace == "" && not (subject.name == ""))
        then String.◌++◌ "u:" subject.name
        else "")
    else if subject.kind == group_kind
    then (if subject.api_group == rbac_group
          && (subject.namespace == "" && not (subject.name == ""))
        then String.◌++◌ "g:" subject.name
        else "")
    else ""

-- A binding that is opted in and names roles.
unfoldable pub indexed_binding : NamespaceBinding → Bool
indexed_binding binding =
    binding.authorize_before_binding
    && (binding.namespace == ""
        && (nonempty binding.namespace_selector
            && ltb 0 (length binding.cluster_role_refs + length binding.role_refs)))

abbrev pub add_key : String → List String → List String
add_key key keys = if not (key == "") && not (contains keys key) then keys ++ key ∷ [] else keys

unfoldable pub subject_keys : List Subject → List String → List String
subject_keys [] keys = keys
subject_keys (s ∷ subjects) keys = subject_keys subjects (add_key (bridge_subject_key s) keys)

unfoldable pub bridge_subject_index : BindDefinition → List String
bridge_subject_index bd =
    if is_some bd.deletion_timestamp
    then []
    else if not (any indexed_binding bd.spec.role_bindings)
    then []
    else subject_keys bd.spec.subjects []

In-append_left : (a : String) (xs ys : List String) → In a xs → In a (xs ++ ys)
In-append_left a [] ys h = absurd h
In-append_left a (x ∷ xs) ys h = elim h [ inl e ↦ inl e | inr k ↦ inr (In-append_left a xs ys k) ]

In-append_last : (a : String) (xs : List String) → In a (xs ++ a ∷ [])
In-append_last a [] = inl refl
In-append_last a (x ∷ xs) = inr (In-append_last a xs)

-- A key once there stays, and a group's key comes in with the group.
In-group_keys : (k : String) (groups keys : List String) → In k keys → In k (group_keys groups keys)
In-group_keys k [] keys h = h
In-group_keys k (g ∷ groups) keys h =
    In-group_keys k groups _ (elim (Bool-cases (contains keys (String.◌++◌ "g:" g))) [
      | inl old ↦ rw old h
      | inr new ↦ rw new (In-append_left k keys _ h)
    ])

In-group_keys_group :
    (g : String) (groups keys : List String)
    → In g groups
    → In (String.◌++◌ "g:" g) (group_keys groups keys)
In-group_keys_group g [] keys h = absurd h
In-group_keys_group g (x ∷ groups) keys h = elim h [
  | inl e ↦ In-group_keys _ groups _ (
      rw e (elim (Bool-cases (contains keys (String.◌++◌ "g:" g))) [
        | inl old ↦ rw old ((contains_iff keys (String.◌++◌ "g:" g)).0 old)
        | inr new ↦ rw new (In-append_last _ keys)
      ]))
  | inr k ↦ In-group_keys_group g groups _ k
]

prefixed-ne-nil : (p s : String) → p ≢ "" → String.◌++◌ p s ≢ ""
prefixed-ne-nil p s n e = n (append-eq-nil_iff.0 e).0

user_key-In :
    (sar : SubjectAccessReview) → sar.user ≢ "" → In (String.◌++◌ "u:" sar.user) (request_keys sar)
unfolding request_keys
user_key-In sar named =
    let given : sar.user == "" ≡ false = (eq-false_iff _ (eq_iff sar.user "")).1 named in
    In-group_keys _ sar.groups _ (rw given (inl refl))

-- A matching subject's key is that of the user, or of a group of the request.
key_cases :
    (sar : SubjectAccessReview) (s : Subject)
    → subject_matches sar s ≡ true
    → ((bridge_subject_key s ≡ String.◌++◌ "u:" sar.user) × (sar.user ≢ ""))
      ⊎ ((bridge_subject_key s ≡ String.◌++◌ "g:" s.name) × (contains sar.groups s.name ≡ true))
unfolding subject_matches bridge_subject_key
key_cases sar s h =
    let rest = String.◌++◌ s.namespace (String.◌++◌ ":" s.name) in
    ground (
      arith,
      eq_iff sar.user (account_user s.namespace s.name),
      eq_iff s.name sar.user,
      eq_iff s.name "",
      append_assoc "u:" "system:serviceaccount:" rest,
      prefixed-ne-nil "system:serviceaccount:" rest (λ e. cc),
    )

-- The key of a subject that matches the request is one of the request's.
subject_key-In :
    (sar : SubjectAccessReview) (s : Subject)
    → subject_matches sar s ≡ true
    → (bridge_subject_key s ≢ "") × In (bridge_subject_key s) (request_keys sar)
unfolding request_keys
subject_key-In sar s h = elim (key_cases sar s h) [
  | inl (e, named) ↦ rw e (prefixed-ne-nil "u:" sar.user (λ n. cc), user_key-In sar named)
  | inr (e, there) ↦ rw e (
    prefixed-ne-nil "g:" s.name (λ n. cc),
    In-group_keys_group s.name sar.groups _ ((contains_iff sar.groups s.name).0 there),
  )
]

Any-In : (P : String → Type 0) (k : String) (xs : List String) → P k → In k xs → Any P xs
Any-In P k [] p h = absurd h
Any-In P k (x ∷ xs) p h = elim h [ inl e ↦ inl (rw e p) | inr t ↦ inr (Any-In P k xs p t) ]

In-subject_keys :
    (k : String) (subjects : List Subject) (keys : List String)
    → In k keys
    → In k (subject_keys subjects keys)
unfolding subject_keys
In-subject_keys k [] keys h = h
In-subject_keys k (s ∷ subjects) keys h =
    In-subject_keys k subjects _
      (elim (Bool-cases
        (not (bridge_subject_key s == "") && not (contains keys (bridge_subject_key s)))) [
          | inl new ↦ rw new (In-append_left k keys _ h)
          | inr old ↦ rw old h
        ])

In-add_key : (k : String) (keys : List String) → k ≢ "" → In k (add_key k keys)
In-add_key k keys n =
    let given : k == "" ≡ false = (eq-false_iff _ (eq_iff k "")).1 n in
    elim (Bool-cases (contains keys k)) [
      | inl old ↦ rw (given, old) ((contains_iff keys k).0 old)
      | inr new ↦ rw (given, new) (In-append_last k keys)
    ]

subject_keys-meet :
    (sar : SubjectAccessReview) (subjects : List Subject) (keys : List String)
    → bind_definition_subject_matches sar subjects ≡ true
    → Any (λ k. In k (request_keys sar)) (subject_keys subjects keys)
unfolding bind_definition_subject_matches subject_keys
subject_keys-meet sar [] keys h = cc
subject_keys-meet sar (s ∷ subjects) keys h = elim (Bool-cases (subject_matches sar s)) [
  | inl hit ↦
      let (given, there) = subject_key-In sar s hit in
      Any-In _ (bridge_subject_key s) _ there
        (In-subject_keys _ subjects _ (In-add_key _ keys given))
  | inr miss ↦ subject_keys-meet sar subjects _ (ground arith)
]

-- A BindDefinition that is not being deleted, has an indexed binding and a subject that matches the
-- request is indexed under one of the request's keys.
pub bridge_subject_index-meets_request_keys :
    (sar : SubjectAccessReview) (bd : BindDefinition)
    → bd.deletion_timestamp ≡ none
    → any indexed_binding bd.spec.role_bindings ≡ true
    → bind_definition_subject_matches sar bd.spec.subjects ≡ true
    → Any (λ k. In k (request_keys sar)) (bridge_subject_index bd)
unfolding bridge_subject_index
bridge_subject_index-meets_request_keys sar bd live opted matches =
    let running : is_some bd.deletion_timestamp ≡ false = ap is_some live in
    rw (running, opted) (subject_keys-meet sar bd.spec.subjects [] matches)

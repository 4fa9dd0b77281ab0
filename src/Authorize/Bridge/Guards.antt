-- ===== src/Authorize/Bridge/Guards.antt =====
-- The guards of the bridge, in terms of what they test: the verb and namespace of the request, its
-- subjects, the binding's choice of namespaces, and the number of candidates.
use auth_operator.Base.{
  ◌≤◌, String, List, none, some, Bool, true, false, [], ◌∷◌, ◌++◌, eq_iff, any, contains,
  nonempty_iff, contains_iff, leb, ltb, length, length-append, on_some, on_some-eq-some, ◌≡◌, ◌≢◌,
  ◌↔◌, ◌⊎◌, inl, inr, arith, Any, All, In, Bool-cases,
}
use auth_operator.Kube
use auth_operator.Kube.{
  Namespace, Selectors, LabelSelector, Subject, PolicyRule, ResourceAttributes, SubjectAccessReview,
}
use auth_operator.Api.Definitions.{NamespaceBinding}
use auth_operator.Policy.Labels.{Fallible, ok, failed}
use auth_operator.Authorize.Rules.Laws.{IsImpersonation, is_impersonation_verb_iff}
use auth_operator.Authorize.Bridge.{
  is_namespace_active, bridge_eligible, account_user, subject_matches,
  bind_definition_subject_matches, valid_selectors, binding_selectors, bridge_selector_matches,
  request_keys, add_candidates, add_listed, collect_candidates, bridge_candidates, opted_in,
}

-- A request in a namespace that neither binds, escalates nor impersonates.
abbrev pub MayBridge : ResourceAttributes → Type 0
MayBridge attr =
    (attr.namespace ≢ "")
    × (attr.verb ≢ "bind")
    × (attr.verb ≢ "escalate")
    × (attr.verb ≢ "impersonate")
    × (¬ IsImpersonation attr.verb)

pub bridge_eligible_iff :
    (attr : ResourceAttributes) → (bridge_eligible (some attr) ≡ true) ↔ MayBridge attr
unfolding bridge_eligible
bridge_eligible_iff attr = ground (
  arith,
  eq_iff attr.namespace "",
  eq_iff attr.verb "bind",
  eq_iff attr.verb "escalate",
  eq_iff attr.verb "impersonate",
  is_impersonation_verb_iff attr.verb,
)

pub is_namespace_active_iff :
    (ns : Namespace) → (is_namespace_active ns ≡ true) ↔ (ns.phase ≢ "Terminating")
unfolding is_namespace_active
is_namespace_active_iff ns = ground (arith, eq_iff ns.phase "Terminating")

-- The subject is the account that asks, the user that asks or a group that the user is in.
abbrev pub Names : SubjectAccessReview → Subject → Type 0
Names sar subject =
    ((subject.kind ≡ "ServiceAccount")
      × (subject.api_group ≡ "")
      × (subject.namespace ≢ "")
      × (subject.name ≢ "")
      × (sar.user ≡ account_user subject.namespace subject.name))
    ⊎ ((subject.api_group ≡ "rbac.authorization.k8s.io")
        × (subject.namespace ≡ "")
        × (subject.name ≢ "")
        × (((subject.kind ≡ "User") × (subject.name ≡ sar.user))
            ⊎ ((subject.kind ≡ "Group") × In subject.name sar.groups)))

subject_matches-Names :
    (sar : SubjectAccessReview) (subject : Subject)
    → subject_matches sar subject ≡ true
    → Names sar subject
unfolding subject_matches
subject_matches-Names sar subject h = ground (
  arith,
  eq_iff subject.kind "ServiceAccount",
  eq_iff subject.kind "User",
  eq_iff subject.kind "Group",
  eq_iff subject.api_group "",
  eq_iff subject.api_group "rbac.authorization.k8s.io",
  eq_iff subject.namespace "",
  eq_iff subject.name "",
  eq_iff sar.user (account_user subject.namespace subject.name),
  eq_iff subject.name sar.user,
  contains_iff sar.groups subject.name,
)

pub bind_definition_subject_matches-Names :
    (sar : SubjectAccessReview) (subjects : List Subject)
    → bind_definition_subject_matches sar subjects ≡ true
    → Any (Names sar) subjects
unfolding bind_definition_subject_matches
bind_definition_subject_matches-Names sar [] h = cc
bind_definition_subject_matches-Names sar (s ∷ subjects) h =
    elim (Bool-cases (subject_matches sar s)) [
      | inl hit ↦ inl (subject_matches-Names sar s hit)
      | inr miss ↦ inr (bind_definition_subject_matches-Names sar subjects (ground arith))
    ]

-- A binding that asks for access before it exists, of namespaces that its selectors choose.
abbrev pub OptsIn : NamespaceBinding → Type 0
OptsIn binding =
    (binding.authorize_before_binding ≡ true)
    × (binding.namespace ≡ "")
    × (binding.namespace_selector ≢ [])

pub opted_in_iff :
    (covers : List PolicyRule → List PolicyRule → Bool) (binding : NamespaceBinding)
    → (opted_in covers binding ≡ true) ↔ OptsIn binding
unfolding opted_in
opted_in_iff covers binding =
    ground (arith, eq_iff binding.namespace "", nonempty_iff binding.namespace_selector)

module _ (sel : Selectors) (labels : Kube.Labels) where
  -- The selector is valid; and it selects the labels.
  abbrev pub IsValid : LabelSelector → Type 0
  IsValid s = (m : Kube.Labels → Bool) × (sel.as_selector s ≡ some m)

  abbrev pub Selects : LabelSelector → Type 0
  Selects s = (m : Kube.Labels → Bool) × (sel.as_selector s ≡ some m) × (m labels ≡ true)

  valid_selectors-some :
      (selectors : List LabelSelector) {ms : List (Kube.Labels → Bool)}
      → valid_selectors sel selectors ≡ some ms
      → All IsValid selectors × ((any (λ m. m labels) ms ≡ true) → Any Selects selectors)
  unfolding valid_selectors
  valid_selectors-some [] {ms} h =
      let e : [] ≡ ms = cc in (tt, rw (← e) (λ t. let f : false ≡ true = t in cc))
  valid_selectors-some (s ∷ selectors) {ms} h =
      let (m, here, h') =
        on_some-eq-some (sel.as_selector s)
          (λ m. on_some (valid_selectors sel selectors) (λ ms. some (m ∷ ms))) {b = ms} h in
      let (later, there, e) =
        on_some-eq-some (valid_selectors sel selectors) (λ ms. some (m ∷ ms)) {b = ms} h' in
      let list : m ∷ later ≡ ms = cc in
      let (valid, selected) = valid_selectors-some selectors there in
      (
        ((m, here), valid),
        rw (← list) (λ t. elim (Bool-cases (m labels)) [
          | inl hit ↦ inl (m, here, hit)
          | inr miss ↦ inr (selected (ground arith))
        ]),
      )

  pub bridge_selector_matches-Selects :
      (binding : NamespaceBinding)
      → OptsIn binding
      → bridge_selector_matches sel binding labels ≡ some true
      → All IsValid binding.namespace_selector × Any Selects binding.namespace_selector
  unfolding bridge_selector_matches binding_selectors
  bridge_selector_matches-Selects binding opted h =
      let (ms, read, e) =
        on_some-eq-some (binding_selectors sel binding)
          (λ selectors. some (any (λ m. m labels) selectors)) {b = true} h in
      let (valid, selected) =
        let named = eq_iff binding.namespace "" in
        valid_selectors-some binding.namespace_selector {ms = ms} (ground arith) in
      let hit : any (λ m. m labels) ms ≡ true = cc in (valid, selected hit)

-- The candidates stay within their bound.
add_candidates-bound :
    (listed names : List String) {found : List String}
    → add_candidates listed names ≡ some found
    → length names ≤ 64
    → length found ≤ 64
unfolding add_candidates
add_candidates-bound [] names h b = ground arith
add_candidates-bound (name ∷ listed) names {found} h b = elim (Bool-cases (contains names name)) [
  | inl known ↦ add_candidates-bound listed names {found = found} (ground arith) b
  | inr new ↦ elim (Bool-cases (leb 64 (length names))) [
    | inl full ↦ (let e : none ≡ some found = ground arith in cc)
    | inr room ↦
        let e = length-append names (name ∷ []) in
        add_candidates-bound listed (names ++ name ∷ []) {found = found} (ground arith)
          (ground arith)
  ]
]

collect_candidates-bound :
    (list : String → Fallible (List String)) (keys names : List String) {found : List String}
    → collect_candidates list keys names ≡ some found
    → length names ≤ 64
    → length found ≤ 64
unfolding collect_candidates
collect_candidates-bound list [] names h b = ground arith
collect_candidates-bound list (key ∷ keys) names {found} h b =
    let (names', added, rest) =
      on_some-eq-some (add_listed names (list key)) (λ names'. collect_candidates list keys names')
        {b = found} h in
    collect_candidates-bound list keys names' rest (step (list key) added)
  where
    step :
        (l : Fallible (List String)) {names' : List String}
        → add_listed names l ≡ some names'
        → length names' ≤ 64
    step (failed error) e = cc
    step (ok listed) e = add_candidates-bound listed names e b

pub bridge_candidates-bound :
    (list : String → Fallible (List String)) (sar : SubjectAccessReview) {names : List String}
    → bridge_candidates list sar ≡ some names
    → (length sar.groups ≤ 64) × (length names ≤ 64)
unfolding bridge_candidates
bridge_candidates-bound list sar {names} h = elim (Bool-cases (ltb 64 (length sar.groups))) [
  | inl many ↦ (let e : none ≡ some names = ground arith in cc)
  | inr few ↦ (
    ground arith,
    collect_candidates-bound list (request_keys sar) [] {found = names} (ground arith)
        (ground arith),
  )
]

-- ===== src/Authorize/Bridge/Grant.antt =====
-- Access that the bridge allows, from the request to the name.
use auth_operator.Base.{
  ℕ, ◌≤◌, length, ◌≢◌, String, List, Option, none, some, Bool, true, ◌==◌, eq_iff, nonempty, ◌≡◌,
  refl, sym, ◌∙◌, ap, ◌⊎◌, inl, inr, arith, Any, Bool-cases,
}
use auth_operator.Kube.{
  Lookup, found, missing, unread, Namespace, Selectors, PolicyRule, ResourceAttributes,
  SubjectAccessReview,
}
use auth_operator.Policy.Labels.{Fallible}
use auth_operator.Authorize.Bridge.Scope.{ScopeCache, Discovery, bridge_resource_namespaced}
use auth_operator.Authorize.Bridge.{
  LiveReader, is_namespace_active, bridge_eligible, bridge_candidates, bridge_definitions,
  match_found, bridge_in_namespace, bridge_named, bridge_with, bridge_bind_definition,
}
use auth_operator.Authorize.Bridge.Guards.{
  MayBridge, bridge_eligible_iff, is_namespace_active_iff, bridge_candidates-bound,
}
use auth_operator.Authorize.Bridge.Laws.{DefinitionGrants, bridge_definitions-some}

-- What the request, its namespace and a candidate must be for the bridge to allow by that name.
pub record IsBridged (covers : List PolicyRule → List PolicyRule → Bool) (sel : Selectors)
    (list : String → Fallible (List String)) (live : LiveReader) (sar : SubjectAccessReview)
    (namespaced : Bool) (attr : ResourceAttributes) (matched : String) : Type 0 where
  pub eligible : MayBridge attr
  pub resource : namespaced ≡ true
  pub candidate :
      (names : List String) × (ns : Namespace) × (bridge_candidates list sar ≡ some names)
      × (length sar.groups ≤ 64)
      × (length names ≤ 64)
      × (live.get_namespace attr.namespace ≡ found ns)
      × (ns.phase ≢ "Terminating")
      × Any (DefinitionGrants covers sel live sar attr ns matched) names

-- A name behind the loop is one that a candidate gave.
match_found-eq-some :
    (P : String → Type 0) (r : Option (String × ℕ)) {matched : String}
    → match_found r ≡ some matched
    → ((s : String × ℕ) → r ≡ some s → (s.0 ≡ "") ⊎ P s.0)
    → P matched
match_found-eq-some P none h step = cc
match_found-eq-some P (some (name, reads)) {matched} h step = elim (step (name, reads) refl) [
  | inl blank ↦ (let e : none ≡ some matched = ground (arith, eq_iff name "") in cc)
  | inr p ↦ elim (Bool-cases (name == "")) [
    | inl blank ↦ (let e : none ≡ some matched = ground arith in cc)
    | inr named ↦ (let e : name ≡ matched = ground arith in rw (← e) p)
  ]
]

module _ (covers : List PolicyRule → List PolicyRule → Bool) (sel : Selectors)
    (list : String → Fallible (List String)) (live : LiveReader) (sar : SubjectAccessReview) where
  bridge_in_namespace-some :
      (attr : ResourceAttributes) (names : List String) (l : Lookup Namespace) {matched : String}
      → live.get_namespace attr.namespace ≡ l
      → bridge_in_namespace covers sel live sar attr names l ≡ some matched
      → (ns : Namespace) × (live.get_namespace attr.namespace ≡ found ns)
        × (ns.phase ≢ "Terminating")
        × Any (DefinitionGrants covers sel live sar attr ns matched) names
  unfolding bridge_in_namespace
  bridge_in_namespace-some attr names missing e h = cc
  bridge_in_namespace-some attr names (unread error) e h = cc
  bridge_in_namespace-some attr names (found ns) {matched} e h =
      elim (Bool-cases (is_namespace_active ns)) [
        | inl active ↦ (
          ns,
          e,
          (is_namespace_active_iff ns).0 active,
          match_found-eq-some (λ m. Any (DefinitionGrants covers sel live sar attr ns m) names)
              (bridge_definitions covers sel live sar attr ns names ("", 0)) (ground arith)
              (λ s r.
                (bridge_definitions-some covers sel live sar attr ns names ("", 0) r
                  (ground arith)).0),
        )
        | inr ending ↦ (let c : none ≡ some matched = ground arith in cc)
      ]

  module _ (discovery : Option Discovery) (now later : ℕ) (cache : ScopeCache) where
    bridge_named-some :
        (attr : ResourceAttributes) (candidates : Option (List String)) {matched : String}
        → bridge_candidates list sar ≡ candidates
        → bridge_eligible (some attr) ≡ true
        → (bridge_named covers sel live discovery now later cache sar attr candidates).0
          ≡ some matched
        → IsBridged covers sel list live sar
            (bridge_resource_namespaced discovery now later cache attr).0
            attr
            matched
    unfolding bridge_named
    bridge_named-some attr none e able h = cc
    bridge_named-some attr (some names) {matched} e able h = elim (Bool-cases (nonempty names)) [
      | inl full ↦ elim (Bool-cases (bridge_resource_namespaced discovery now later cache attr).0) [
        | inl namespaced ↦
            let (few_groups, few_names) = bridge_candidates-bound list sar e in
            let (ns, read, active, grants) =
              bridge_in_namespace-some attr names (live.get_namespace attr.namespace) refl
                (ground arith) in
            record {
              eligible = (bridge_eligible_iff attr).0 able;
              resource = namespaced;
              candidate = (names, ns, e, few_groups, few_names, read, active, grants);
            }
        | inr cluster ↦ (let c : none ≡ some matched = ground arith in cc)
      ]
      | inr blank ↦ (let c : none ≡ some matched = ground arith in cc)
    ]

    bridge_with-some :
        (attr : ResourceAttributes) {matched : String}
        → (bridge_with covers sel list (some live) discovery now later cache sar (some attr)).0
          ≡ some matched
        → IsBridged covers sel list live sar
            (bridge_resource_namespaced discovery now later cache attr).0
            attr
            matched
    bridge_with-some attr {matched} h = elim (Bool-cases (bridge_eligible (some attr))) [
      | inl able ↦ bridge_named-some attr (bridge_candidates list sar) refl able (ground arith)
      | inr out ↦ (let c : none ≡ some matched = ground arith in cc)
    ]

    -- Where the bridge names a definition for a request on a resource, the request is in a namespace
    -- and its verb is not bind, escalate, impersonate or one of constrained impersonation; the resource
    -- is namespaced by what the scopes tell; the request has at most 64 groups, and the candidates for
    -- its user and groups are at most 64; the namespace is read, and not terminating; and a candidate,
    -- as read now, bears the name, is not being deleted, has a subject that is the user, the account or
    -- one of the groups that ask, and a binding that sets authorizeBeforeBinding, names no namespace,
    -- has selectors, all valid, one of which selects the namespace, and a role that, as read now, covers
    -- the request.
    pub bridge_bind_definition-IsBridged :
        (attr : ResourceAttributes) (matched : String)
        → sar.resource_attributes ≡ some attr
        → (bridge_bind_definition covers sel list (some live) discovery now later cache sar).0
          ≡ some matched
        → IsBridged covers sel list live sar
            (bridge_resource_namespaced discovery now later cache attr).0
            attr
            matched
    unfolding bridge_bind_definition
    bridge_bind_definition-IsBridged attr matched resource h = bridge_with-some attr (
        ap (λ a. (bridge_with covers sel list (some live) discovery now later cache sar a).0)
          (sym resource)
        ∙ h)

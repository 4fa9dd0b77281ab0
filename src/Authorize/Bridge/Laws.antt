-- ===== src/Authorize/Bridge/Laws.antt =====
-- What stands behind access that the bridge allows.
use auth_operator.Base.{
  ℕ, ◌+◌, ◌≤◌, String, List, Option, none, some, Bool, true, false, ◌||◌, [], ◌∷◌, is_some, leb,
  on_some-eq-some, ◌≡◌, refl, ◌∙◌, ◌⊎◌, inl, inr, arith, Any, All, Bool-cases,
}
use auth_operator.Kube.{
  Lookup, found, missing, unread, found_only, found_only-eq-some, Namespace, Selectors, PolicyRule,
  ResourceAttributes, SubjectAccessReview,
}
use auth_operator.Api.Definitions.{NamespaceBinding, BindDefinition}
use auth_operator.Authorize.Bridge.Guards.{
  Names, bind_definition_subject_matches-Names, OptsIn, opted_in_iff, IsValid, Selects,
  bridge_selector_matches-Selects,
}
use auth_operator.Authorize.Bridge.{
  LiveReader, bind_definition_subject_matches, bridge_selector_matches, bridge_rules_allow,
  check_roles, bridge_binding_allows, opted_in, after_roles, bridge_selected, bridge_binding,
  bridge_bindings, bridge_candidate, bridge_definitions,
}

-- One of the roles is there, and its rules cover the request.
abbrev pub RoleGrants :
    (List PolicyRule → List PolicyRule → Bool)
    → ResourceAttributes
    → (String → Lookup (List PolicyRule))
    → List String
    → Type 0
RoleGrants covers attr get = Any (λ name.
    (rules : List PolicyRule) × (get name ≡ found rules)
    × (bridge_rules_allow covers rules attr ≡ true))

-- A binding that asks for access before it exists and names no namespace, whose selectors, of which
-- there are some, are all valid, one of them selecting the namespace, and one of whose roles covers
-- the request.
pub record BindingGrants (covers : List PolicyRule → List PolicyRule → Bool) (sel : Selectors)
    (live : LiveReader) (attr : ResourceAttributes) (ns : Namespace) (binding : NamespaceBinding)
    : Type 0 where
  pub opted : OptsIn binding
  pub valid : All (IsValid sel ns.labels) binding.namespace_selector
  pub selected : Any (Selects sel ns.labels) binding.namespace_selector
  pub role :
      RoleGrants covers attr live.get_cluster_role binding.cluster_role_refs
      ⊎ RoleGrants covers attr (live.get_role attr.namespace) binding.role_refs

-- The definition of that name, as it is now, is not being deleted, has a subject that matches and a
-- binding that grants; `matched` is its name.
abbrev pub DefinitionGrants :
    (List PolicyRule → List PolicyRule → Bool)
    → Selectors
    → LiveReader
    → SubjectAccessReview
    → ResourceAttributes
    → Namespace
    → String
    → String
    → Type 0
DefinitionGrants covers sel live sar attr ns matched name =
    (bd : BindDefinition) × (live.get_bind_definition name ≡ found bd)
    × (bd.deletion_timestamp ≡ none)
    × Any (Names sar) bd.spec.subjects
    × Any (BindingGrants covers sel live attr ns) bd.spec.role_bindings
    × (matched ≡ bd.name)

not_some : {A : Type 0} (o : Option A) → is_some o ≡ false → o ≡ none
not_some none h = refl
not_some (some a) h = cc

module _ (covers : List PolicyRule → List PolicyRule → Bool) where
  -- A role that allows, among those read or before; and the reads stay within their limit.
  check_roles-some :
      (get : String → Lookup (List PolicyRule)) (attr : ResourceAttributes) (names : List String)
      (allowed : Bool) (reads : ℕ) {r : Bool × ℕ}
      → check_roles covers get attr names allowed reads ≡ some r
      → reads ≤ 128
      → ((r.0 ≡ true) → (allowed ≡ true) ⊎ RoleGrants covers attr get names) × (r.1 ≤ 128)
  unfolding check_roles
  check_roles-some get attr [] allowed reads h b = (λ e. inl (ground arith), ground arith)
  check_roles-some get attr (n ∷ names) allowed reads {r} h b = elim (Bool-cases (leb 128 reads)) [
    | inl full ↦ (let e : none ≡ some r = ground arith in cc)
    | inr room ↦
        let (rules, got, rest) =
          on_some-eq-some (found_only (get n))
            (λ rules.
              check_roles covers get attr names (bridge_rules_allow covers rules attr || allowed)
                (reads + 1))
            {b = r} (ground arith) in
        let (grants, bounded) =
          check_roles-some get attr names (bridge_rules_allow covers rules attr || allowed)
            (reads + 1) rest (ground arith) in
        let here = found_only-eq-some (get n) got in
        (
          λ e. elim (grants e) [
            | inl either ↦ elim (Bool-cases (bridge_rules_allow covers rules attr)) [
              | inl hit ↦ inr (inl (rules, here, hit))
              | inr miss ↦ inl (ground arith)
            ]
            | inr later ↦ inr (inr later)
          ],
          bounded,
        )
  ]

  bridge_binding_allows-some :
      (live : LiveReader) (binding : NamespaceBinding) (attr : ResourceAttributes) (reads : ℕ)
      {r : Bool × ℕ}
      → bridge_binding_allows covers live binding attr reads ≡ some r
      → reads ≤ 128
      → ((r.0 ≡ true)
          → RoleGrants covers attr live.get_cluster_role binding.cluster_role_refs
            ⊎ RoleGrants covers attr (live.get_role attr.namespace) binding.role_refs)
        × (r.1 ≤ 128)
  unfolding bridge_binding_allows
  bridge_binding_allows-some live binding attr reads {r} h b =
      let (first, read, rest) =
        on_some-eq-some
          (check_roles covers live.get_cluster_role attr binding.cluster_role_refs false reads)
          (λ (r : Bool × ℕ).
            check_roles covers (live.get_role attr.namespace) attr binding.role_refs r.0 r.1)
          h in
      let (cluster, kept) =
        check_roles-some live.get_cluster_role attr binding.cluster_role_refs false reads read b in
      let (roles, bounded) =
        check_roles-some (live.get_role attr.namespace) attr binding.role_refs first.0 first.1 rest
          kept in
      (
        λ e. elim (roles e) [
          | inl before ↦ elim (cluster before) [ inl no_role ↦ cc | inr g ↦ inl g ]
          | inr g ↦ inr g
        ],
        bounded,
      )

module _ (covers : List PolicyRule → List PolicyRule → Bool) (sel : Selectors) (live : LiveReader)
    (sar : SubjectAccessReview) (attr : ResourceAttributes) (ns : Namespace) where
  -- The name stays what it was, or becomes the definition's by a binding that grants.
  bridge_selected-some :
      (name : String) (binding : NamespaceBinding) (s : String × ℕ) (m : Bool) {r : String × ℕ}
      → opted_in covers binding ≡ true
      → bridge_selector_matches sel binding ns.labels ≡ some m
      → bridge_selected covers live attr name binding s m ≡ some r
      → s.1 ≤ 128
      → ((r.0 ≡ s.0) ⊎ (BindingGrants covers sel live attr ns binding × (r.0 ≡ name))) × (r.1 ≤ 128)
  unfolding bridge_selected
  bridge_selected-some name binding (matched, reads) false {r} opted selected h b =
      (inl (ground arith), ground arith)
  bridge_selected-some name binding (matched, reads) true {r} opted selected h b =
      let ((allowed, reads'), read, rest) =
        on_some-eq-some (bridge_binding_allows covers live binding attr reads)
          (λ r. some (after_roles name matched r)) h in
      let (grants, bounded) = bridge_binding_allows-some covers live binding attr reads read b in
      let chosen =
        bridge_selector_matches-Selects sel ns.labels binding
          ((opted_in_iff covers binding).0 opted) selected in
      elim (Bool-cases allowed) [
        | inl hit ↦ (
          inr (
            record {
              opted = (opted_in_iff covers binding).0 opted;
              valid = chosen.0;
              selected = chosen.1;
              role = grants hit;
            },
            ground arith,
          ),
          ground arith,
        )
        | inr miss ↦ (inl (ground arith), ground arith)
      ]

  bridge_binding-some :
      (name : String) (binding : NamespaceBinding) (s : String × ℕ) {r : String × ℕ}
      → bridge_binding covers sel live attr ns name binding s ≡ some r
      → s.1 ≤ 128
      → ((r.0 ≡ s.0) ⊎ (BindingGrants covers sel live attr ns binding × (r.0 ≡ name))) × (r.1 ≤ 128)
  unfolding bridge_binding
  bridge_binding-some name binding s {r} h b = elim (Bool-cases (opted_in covers binding)) [
    | inl opted ↦
        let (m, selected, rest) =
          on_some-eq-some (bridge_selector_matches sel binding ns.labels)
            (λ m. bridge_selected covers live attr name binding s m) {b = r} (ground arith) in
        bridge_selected-some name binding s m opted selected rest b
    | inr out ↦ (inl (ground arith), ground arith)
  ]

  bridge_bindings-some :
      (name : String) (bindings : List NamespaceBinding) (s : String × ℕ) {r : String × ℕ}
      → bridge_bindings covers sel live attr ns name bindings s ≡ some r
      → s.1 ≤ 128
      → ((r.0 ≡ s.0) ⊎ (Any (BindingGrants covers sel live attr ns) bindings × (r.0 ≡ name)))
        × (r.1 ≤ 128)
  unfolding bridge_bindings
  bridge_bindings-some name [] s h b = (inl (ground arith), ground arith)
  bridge_bindings-some name (binding ∷ bindings) s h b =
      let (s', first, rest) =
        on_some-eq-some (bridge_binding covers sel live attr ns name binding s)
          (λ s'. bridge_bindings covers sel live attr ns name bindings s') h in
      let (here, kept) = bridge_binding-some name binding s first b in
      let (later, bounded) = bridge_bindings-some name bindings s' rest kept in
      (
        elim later [
          | inl same ↦ elim here [ inl e ↦ inl (same ∙ e) | inr (g, e) ↦ inr (inl g, same ∙ e) ]
          | inr (g, e) ↦ inr (inr g, e)
        ],
        bounded,
      )

  bridge_candidate-some :
      (name : String) (l : Lookup BindDefinition) (s : String × ℕ) {r : String × ℕ}
      → live.get_bind_definition name ≡ l
      → bridge_candidate covers sel live sar attr ns l s ≡ some r
      → s.1 ≤ 128
      → ((r.0 ≡ s.0) ⊎ DefinitionGrants covers sel live sar attr ns r.0 name) × (r.1 ≤ 128)
  unfolding bridge_candidate
  bridge_candidate-some name missing s e h b = (inl (ground arith), ground arith)
  bridge_candidate-some name (unread error) s e h b = cc
  bridge_candidate-some name (found bd) s {r} e h b =
      elim (Bool-cases (is_some bd.deletion_timestamp)) [
        | inl deleting ↦ (inl (ground arith), ground arith)
        | inr running ↦ elim (Bool-cases (bind_definition_subject_matches sar bd.spec.subjects)) [
          | inl hit ↦
              let (grants, bounded) =
                bridge_bindings-some bd.name bd.spec.role_bindings s {r = r} (ground arith) b in
              (
                elim grants [
                  | inl same ↦ inl same
                  | inr (g, m) ↦ inr (
                    bd,
                    e,
                    not_some bd.deletion_timestamp running,
                    bind_definition_subject_matches-Names sar bd.spec.subjects hit,
                    g,
                    m,
                  )
                ],
                bounded,
              )
          | inr miss ↦ (inl (ground arith), ground arith)
        ]
      ]

  pub bridge_definitions-some :
      (names : List String) (s : String × ℕ) {r : String × ℕ}
      → bridge_definitions covers sel live sar attr ns names s ≡ some r
      → s.1 ≤ 128
      → ((r.0 ≡ s.0) ⊎ Any (DefinitionGrants covers sel live sar attr ns r.0) names) × (r.1 ≤ 128)
  unfolding bridge_definitions
  bridge_definitions-some [] s h b = (inl (ground arith), ground arith)
  bridge_definitions-some (name ∷ names) s {r} h b =
      let (s', first, rest) =
        on_some-eq-some
          (bridge_candidate covers sel live sar attr ns (live.get_bind_definition name) s)
          (λ s'. bridge_definitions covers sel live sar attr ns names s') h in
      let (here, kept) =
        bridge_candidate-some name (live.get_bind_definition name) s refl first b in
      let (later, bounded) = bridge_definitions-some names s' rest kept in
      (
        elim later [
          | inl same ↦ elim here [ inl e ↦ inl (same ∙ e) | inr g ↦ inr (inl (rw same g)) ]
          | inr g ↦ inr (inr g)
        ],
        bounded,
      )

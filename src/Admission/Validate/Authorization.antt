-- ===== src/Admission/Validate/Authorization.antt =====
-- On what grounds a caller without a bypass is permitted to act on a namespace.
use auth_operator.Base.{
  List, Option, none, some, Bool, true, false, ◌&&◌, ◌||◌, [], ◌∷◌, ◌==◌, eq_iff, eq-false_iff,
  if◌then◌else◌, nonempty, on_some-eq-some, ◌≡◌, ◌≢◌, refl, ap, ◌∙◌, ◌⊎◌, inl, inr, arith, Any, All,
  String, Bool-cases,
}
use auth_operator.Kube.{Lookup, Labels, LabelSelector, Selectors, Namespace}
use auth_operator.Api.Definitions.{NamespaceBinding, BindDefinition}
use auth_operator.Admission.Ownership.{valid_tracked_ownership_labels}
use auth_operator.Admission.Bypass.{
  ServiceAccountInfo, parse_service_account, matches_subjects, is_restricted_bind_definition,
}
use auth_operator.Admission.Protection.{AdmissionRequest, Response, permitted, denied, errored}
use auth_operator.Policy.Labels.{Fallible, ok, failed}
use auth_operator.Admission.Validate.Selection.{
  Chooses, matches_for_operation-Chooses, IsReadOf, fresh_of-IsReadOf,
}
use auth_operator.Admission.Validate.Inheritance.{
  IsCaller, matches_subjects-IsCaller, SharesOwnership,
  get_sa_namespace_tracked_labels-SharesOwnership,
}
use auth_operator.Admission.Validate.{
  is_field_index_error, with_role_bindings, all_with_role_bindings, cached_or_all, fresh_of,
  cached_bind_definitions, matches_for_operation, any_selector, any_binding, any_definition,
  Readers, fresh_bind_definitions, get_sa_namespace_tracked_labels, labels_match, by_inheritance,
  last_resort, after_definitions, authorize_via_bind_definitions,
}

module _ (sel : Selectors) (req : AdmissionRequest) (sa_info : ServiceAccountInfo)
    (ns : Namespace) where
  -- The binding names the namespace of the request, or names none and a selector of it matches.
  abbrev pub BindingAuthorizes : NamespaceBinding → Type 0
  BindingAuthorizes binding =
      ((binding.namespace ≢ "") × (binding.namespace ≡ req.name))
      ⊎ ((binding.namespace ≡ "")
          × Any (λ s. Chooses sel ns s req.operation) binding.namespace_selector)

  -- The definition is not a restricted one, has the caller as a subject, and a binding authorizes.
  abbrev pub DefinitionAuthorizes : BindDefinition → Type 0
  DefinitionAuthorizes bd =
      (is_restricted_bind_definition bd.name ≡ false)
      × Any (IsCaller req.username req.groups sa_info) bd.spec.subjects
      × Any BindingAuthorizes bd.spec.role_bindings

  any_selector-true :
      (selectors : List LabelSelector)
      → any_selector sel req.operation ns selectors ≡ some true
      → Any (λ s. Chooses sel ns s req.operation) selectors
  unfolding any_selector
  any_selector-true [] h = cc
  any_selector-true (s ∷ selectors) h =
      let (m, read, rest) =
        on_some-eq-some (matches_for_operation sel req.operation ns s)
          (λ m. if m then some true else any_selector sel req.operation ns selectors) h in
      elim (Bool-cases m) [
        | inl hit ↦ inl (matches_for_operation-Chooses sel ns s req.operation (read ∙ ap some hit))
        | inr miss ↦ inr (any_selector-true selectors (ground arith))
      ]

  any_binding-true :
      (bindings : List NamespaceBinding)
      → any_binding sel req.operation req.name ns bindings ≡ some true
      → Any BindingAuthorizes bindings
  unfolding any_binding
  any_binding-true [] h = cc
  any_binding-true (b ∷ bindings) h =
      let named = eq_iff b.namespace "" in
      elim (Bool-cases (b.namespace == "")) [
        | inr explicit ↦ elim (Bool-cases (b.namespace == req.name)) [
          | inl hit ↦
              inl (inl ((eq-false_iff _ named).0 explicit, (eq_iff b.namespace req.name).0 hit))
          | inr miss ↦ inr (any_binding-true bindings (ground arith))
        ]
        | inl selected ↦
            let (m, read, rest) =
              on_some-eq-some (any_selector sel req.operation ns b.namespace_selector)
                (λ m. if m then some true else any_binding sel req.operation req.name ns bindings)
                {b = true} (ground arith) in
            elim (Bool-cases m) [
              | inl hit ↦ inl (
                  inr
                    (named.0 selected, any_selector-true b.namespace_selector (read ∙ ap some hit)))
              | inr miss ↦ inr (any_binding-true bindings (ground arith))
            ]
      ]

  any_definition-true :
      (definitions : List BindDefinition)
      → any_definition sel req sa_info ns definitions ≡ some true
      → Any DefinitionAuthorizes definitions
  unfolding any_definition
  any_definition-true [] h = cc
  any_definition-true (bd ∷ definitions) h =
      elim (Bool-cases (is_restricted_bind_definition bd.name)) [
        | inl skip ↦ inr (any_definition-true definitions (ground arith))
        | inr plain ↦
            elim (Bool-cases (matches_subjects req.username req.groups sa_info bd.spec.subjects)) [
              | inr other ↦ inr (any_definition-true definitions (ground arith))
              | inl caller ↦
                  let (m, read, rest) =
                    on_some-eq-some
                      (any_binding sel req.operation req.name ns bd.spec.role_bindings)
                      (λ m. if m then some true else any_definition sel req sa_info ns definitions)
                      {b = true} (ground arith) in
                  elim (Bool-cases m) [
                    | inl hit ↦ inl (
                      plain,
                      matches_subjects-IsCaller req.username req.groups sa_info bd.spec.subjects
                          caller,
                      any_binding-true bd.spec.role_bindings (read ∙ ap some hit),
                    )
                    | inr miss ↦ inr (any_definition-true definitions (ground arith))
                  ]
            ]
      ]

-- A service account creates or updates, and its own namespace, as read, has tracked labels and the
-- same ones as the namespace.
abbrev pub Inherits : Readers → AdmissionRequest → ServiceAccountInfo → Namespace → Type 0
Inherits readers req sa_info ns =
    ((req.operation ≡ "CREATE") ⊎ (req.operation ≡ "UPDATE"))
    × SharesOwnership readers.get_namespace sa_info ns

abbrev is_permitted : Response → Bool
is_permitted permitted = true
is_permitted (denied t) = false
is_permitted (errored s t) = false

by_inheritance-permitted :
    (req : AdmissionRequest) (ns : Namespace) (o : Option Labels)
    → by_inheritance req ns o ≡ permitted
    → (inherited : Labels) × (o ≡ some inherited)
      × (nonempty inherited ≡ true)
      × (labels_match ns.labels inherited ≡ true)
by_inheritance-permitted req ns none h = cc
by_inheritance-permitted req ns (some inherited) h =
    let t = ap is_permitted h in
    elim (Bool-cases (nonempty inherited && labels_match ns.labels inherited)) [
      | inl both ↦ (inherited, refl, ground arith, ground arith)
      | inr either ↦ (let f : false ≡ true = ground arith in cc)
    ]

module _ (readers : Readers) (req : AdmissionRequest) (sa_info : ServiceAccountInfo)
    (ns : Namespace) where
  last_resort-permitted :
      last_resort readers req sa_info ns ≡ permitted → Inherits readers req sa_info ns
  unfolding last_resort
  last_resort-permitted h =
      let c = eq_iff req.operation "CREATE" in
      let u = eq_iff req.operation "UPDATE" in
      let t = ap is_permitted h in
      elim (Bool-cases
        (sa_info.is_service_account && (req.operation == "CREATE" || req.operation == "UPDATE"))) [
          | inl may ↦
              let (inherited, read, some_label, match) =
                by_inheritance-permitted req ns
                  (get_sa_namespace_tracked_labels readers.get_namespace sa_info) (ground arith) in
              (
                ground (arith, c, u),
                get_sa_namespace_tracked_labels-SharesOwnership readers.get_namespace sa_info ns
                    inherited (ground arith) read some_label match,
              )
          | inr cannot ↦ (let f : false ≡ true = ground arith in cc)
        ]

  after_definitions-permitted :
      (o : Option Bool)
      → after_definitions readers req sa_info ns o ≡ permitted
      → (o ≡ some true) ⊎ Inherits readers req sa_info ns
  after_definitions-permitted none h = cc
  after_definitions-permitted (some true) h = inl refl
  after_definitions-permitted (some false) h = inr (last_resort-permitted h)

-- A definition that is what reading the name of a candidate gives, and of which `P` holds; the
-- candidates are those of the index, or are among all where it gives an error.
abbrev pub ReadDefinition : Readers → (BindDefinition → Type 0) → Type 0
ReadDefinition readers P =
    (candidates : List BindDefinition) × ((readers.indexed_definitions ≡ ok candidates)
      ⊎ ((readers.all_definitions ≡ ok candidates)
          × ((error : String) × (readers.indexed_definitions ≡ failed error))))
    × ((bd : BindDefinition) × IsReadOf readers.get_definition candidates bd × P bd)

one_of_both :
    {P Q : BindDefinition → Type 0} (xs : List BindDefinition)
    → All P xs
    → Any Q xs
    → (x : BindDefinition) × P x × Q x
one_of_both [] a z = absurd z
one_of_both (x ∷ xs) (p, a) (inl q) = (x, p, q)
one_of_both (x ∷ xs) (p, a) (inr later) = one_of_both xs a later

with_role_bindings-IsReadOf :
    (get : String → Lookup BindDefinition) (all : List BindDefinition) (bd : BindDefinition)
    → IsReadOf get (with_role_bindings all) bd
    → IsReadOf get all bd
with_role_bindings-IsReadOf get [] bd z = absurd z
with_role_bindings-IsReadOf get (c ∷ all) bd z =
    bound (nonempty c.spec.role_bindings) (with_role_bindings-IsReadOf get all bd) z
  where
    bound :
        (has : Bool)
        → (IsReadOf get (with_role_bindings all) bd → IsReadOf get all bd)
        → IsReadOf get (if has then c ∷ with_role_bindings all else with_role_bindings all) bd
        → IsReadOf get (c ∷ all) bd
    bound true later (inl here) = inl here
    bound true later (inr there) = inr (later there)
    bound false later there = inr (later there)

module _ (readers : Readers) (P : BindDefinition → Type 0) where
  read_all :
      (error : String) (all : Fallible (List BindDefinition)) (candidates : List BindDefinition)
      (bd : BindDefinition)
      → readers.indexed_definitions ≡ failed error
      → readers.all_definitions ≡ all
      → all_with_role_bindings all ≡ some candidates
      → IsReadOf readers.get_definition candidates bd
      → P bd
      → ReadDefinition readers P
  read_all error (failed other) candidates bd broken e h read p = cc
  read_all error (ok all) candidates bd broken e h read p =
      let same : with_role_bindings all ≡ candidates = cc in
      (
        all,
        inr (e, (error, broken)),
        (bd, with_role_bindings-IsReadOf readers.get_definition all bd (rw same read), p),
      )

  read_cached :
      (indexed : Fallible (List BindDefinition)) (candidates : List BindDefinition)
      (bd : BindDefinition)
      → readers.indexed_definitions ≡ indexed
      → cached_or_all readers indexed ≡ some candidates
      → IsReadOf readers.get_definition candidates bd
      → P bd
      → ReadDefinition readers P
  read_cached (ok listed) candidates bd e h read p =
      let same : listed ≡ candidates = cc in (candidates, inl (e ∙ ap ok same), (bd, read, p))
  read_cached (failed error) candidates bd e h read p =
      elim (Bool-cases (is_field_index_error readers error)) [
        | inr broken ↦ (let c : none ≡ some candidates = ground arith in cc)
        | inl no_index ↦
            read_all error readers.all_definitions candidates bd e refl (ground arith) read p
      ]

  fresh_bind_definitions-ReadDefinition :
      (definitions : List BindDefinition)
      → fresh_bind_definitions readers ≡ some definitions
      → Any P definitions
      → ReadDefinition readers P
  unfolding fresh_bind_definitions cached_bind_definitions
  fresh_bind_definitions-ReadDefinition definitions h any_p =
      let (candidates, cached, fresh) =
        on_some-eq-some (cached_bind_definitions readers)
          (λ candidates. fresh_of readers.get_definition candidates) {b = definitions} h in
      let (bd, read, p) =
        one_of_both definitions (fresh_of-IsReadOf readers.get_definition candidates fresh) any_p in
      read_cached readers.indexed_definitions candidates bd refl cached read p

-- Where the BindDefinitions permit an operation, the namespace's ownership labels are valid, and a
-- definition, which is what reading the name of a candidate gives, authorizes the caller: it is not a
-- restricted one, has the caller as a subject, and a binding that names the namespace, or has a
-- selector that may match the namespace (an add-on's only by a pin) and does, on CREATE with the labels
-- it stands for; or a service account creates or updates, and its own namespace has tracked labels, and
-- under each tracked key both namespaces have the same value or none.
pub authorize_via_bind_definitions-permitted :
    (readers : Readers) (req : AdmissionRequest) (ns : Namespace)
    → authorize_via_bind_definitions readers req ns ≡ permitted
    → (valid_tracked_ownership_labels ns.labels ≡ true)
      × (ReadDefinition readers
            (DefinitionAuthorizes readers.selectors req (parse_service_account req.username) ns)
          ⊎ Inherits readers req (parse_service_account req.username) ns)
unfolding authorize_via_bind_definitions
authorize_via_bind_definitions-permitted readers req ns h =
    let sa = parse_service_account req.username in
    let t = ap is_permitted h in
    elim (Bool-cases (valid_tracked_ownership_labels ns.labels)) [
      | inr bad ↦ (let f : false ≡ true = ground arith in cc)
      | inl valid ↦ elim (after_definitions-permitted readers req sa ns _ (ground arith)) [
        | inr heir ↦ (valid, inr heir)
        | inl hit ↦
            let (definitions, read, rest) =
              on_some-eq-some (fresh_bind_definitions readers)
                (λ definitions. any_definition readers.selectors req sa ns definitions) hit in
            (
              valid,
              inl (
                  fresh_bind_definitions-ReadDefinition readers
                    (DefinitionAuthorizes readers.selectors req sa ns) definitions read
                    (any_definition-true readers.selectors req sa ns definitions rest)),
            )
      ]
    ]

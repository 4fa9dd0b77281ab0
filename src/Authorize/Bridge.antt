-- ===== src/Authorize/Bridge.antt =====
-- binddefinition_bridge.go: access that a BindDefinition will grant, allowed before its bindings exist.
pub mod Scope
pub mod Index
pub mod Guards
pub mod Laws
pub mod Grant
use Prim.Native.String
use auth_operator.Base.{
  ℕ, ◌+◌, String, List, Option, none, some, Bool, true, false, not, ◌&&◌, ◌||◌, [], ◌∷◌, ◌++◌, ◌==◌,
  any, contains, nonempty, if◌then◌else◌, is_some, leb, ltb, length, on_some,
}
use auth_operator.Kube
use auth_operator.Kube.{
  Lookup, found, missing, found_only, unread, Namespace, Selectors, LabelSelector, Subject,
  PolicyRule, ResourceAttributes, SubjectAccessReview,
}
use auth_operator.Api.Definitions.{NamespaceBinding, BindDefinition}
use auth_operator.Api.Impersonation.{is_impersonation_verb}
use auth_operator.Policy.Labels.{Fallible, ok, failed}
use auth_operator.Policy.Subjects.{user_kind, group_kind, service_account_kind}
use auth_operator.Authorize.Bridge.Scope.{ScopeCache, Discovery, bridge_resource_namespaced}

abbrev pub max_bridge_groups : ℕ
max_bridge_groups = 64

abbrev pub max_bridge_candidates : ℕ
max_bridge_candidates = 64

abbrev pub max_bridge_role_reads : ℕ
max_bridge_role_reads = 128

-- rbacv1.GroupName
abbrev pub rbac_group : String
rbac_group = "rbac.authorization.k8s.io"

-- What the bridge reads of the API server.
pub record LiveReader : Type 0 where
  pub get_bind_definition : String → Lookup BindDefinition
  pub get_namespace : String → Lookup Namespace
  pub get_cluster_role : String → Lookup (List PolicyRule)
  pub get_role : String → String → Lookup (List PolicyRule)

-- `IsNamespaceActive`
unfoldable pub is_namespace_active : Namespace → Bool
is_namespace_active ns = not (ns.phase == "Terminating")

unfoldable pub bridge_eligible : Option ResourceAttributes → Bool
bridge_eligible none = false
bridge_eligible (some attr) =
    not (attr.namespace == "")
    && (not (attr.verb == "bind")
        && (not (attr.verb == "escalate")
            && (not (attr.verb == "impersonate") && not (is_impersonation_verb attr.verb))))

-- The user name of a service account.
abbrev pub account_user : String → String → String
account_user namespace name =
    String.◌++◌ "system:serviceaccount:" (String.◌++◌ namespace (String.◌++◌ ":" name))

unfoldable pub subject_matches : SubjectAccessReview → Subject → Bool
subject_matches sar subject =
    if subject.kind == service_account_kind
    then subject.api_group == ""
      && (not (subject.namespace == "")
          && (not (subject.name == "") && sar.user == account_user subject.namespace subject.name))
    else if subject.kind == user_kind
    then subject.api_group == rbac_group
      && (subject.namespace == "" && (not (subject.name == "") && subject.name == sar.user))
    else if subject.kind == group_kind
    then subject.api_group == rbac_group
      && (subject.namespace == "" && (not (subject.name == "") && contains sar.groups subject.name))
    else false

unfoldable pub bind_definition_subject_matches : SubjectAccessReview → List Subject → Bool
bind_definition_subject_matches sar subjects = any (subject_matches sar) subjects

-- `NamespaceBinding.Selectors`; `none` is the error for an invalid selector.
unfoldable pub valid_selectors : Selectors → List LabelSelector → Option (List (Kube.Labels → Bool))
valid_selectors sel [] = some []
valid_selectors sel (s ∷ selectors) =
    on_some (sel.as_selector s) (λ m. on_some (valid_selectors sel selectors) (λ ms. some (m ∷ ms)))

unfoldable pub binding_selectors : Selectors → NamespaceBinding → Option (List (Kube.Labels → Bool))
binding_selectors sel binding =
    if not (binding.namespace == "")
    then some []
    else valid_selectors sel binding.namespace_selector

unfoldable pub bridge_selector_matches : Selectors → NamespaceBinding → Kube.Labels → Option Bool
bridge_selector_matches sel binding namespace_labels =
    on_some (binding_selectors sel binding)
      (λ selectors. some (any (λ m. m namespace_labels) selectors))

-- The keys of the request's user and groups in the index, each group once.
abbrev pub group_keys : List String → List String → List String
group_keys [] keys = keys
group_keys (group ∷ groups) keys =
    let key = String.◌++◌ "g:" group in
    group_keys groups (if contains keys key then keys else keys ++ key ∷ [])

unfoldable pub request_keys : SubjectAccessReview → List String
request_keys sar =
    group_keys sar.groups (if not (sar.user == "") then String.◌++◌ "u:" sar.user ∷ [] else [])

-- The names found under one key, behind those found before; `none` where there are too many.
unfoldable pub add_candidates : List String → List String → Option (List String)
add_candidates [] names = some names
add_candidates (name ∷ listed) names =
    let rest = add_candidates listed (names ++ name ∷ []) in
    let skip = add_candidates listed names in
    if contains names name
    then skip
    else if leb max_bridge_candidates (length names)
    then none
    else rest

abbrev pub add_listed : List String → Fallible (List String) → Option (List String)
add_listed names (failed error) = none
add_listed names (ok listed) = add_candidates listed names

unfoldable pub collect_candidates :
    (String → Fallible (List String)) → List String → List String → Option (List String)
collect_candidates list [] names = some names
collect_candidates list (key ∷ keys) names =
    on_some (add_listed names (list key)) (λ names'. collect_candidates list keys names')

unfoldable pub bridge_candidates :
    (String → Fallible (List String)) → SubjectAccessReview → Option (List String)
bridge_candidates list sar =
    if ltb max_bridge_groups (length sar.groups)
    then none
    else collect_candidates list (request_keys sar) []

unfoldable pub bridge_request : ResourceAttributes → PolicyRule
bridge_request attr = record {
  verbs = attr.verb ∷ [];
  api_groups = attr.group ∷ [];
  resources =
      (if not (attr.subresource == "")
        then String.◌++◌ attr.resource (String.◌++◌ "/" attr.subresource)
        else attr.resource)
      ∷ [];
  resource_names = if not (attr.name == "") then attr.name ∷ [] else [];
  non_resource_urls = [];
}

-- The name matched, behind the roles of a binding of the definition `name`, and the roles read.
abbrev pub after_roles : String → String → Bool × ℕ → String × ℕ
after_roles name matched (allowed, reads) = (if allowed then name else matched, reads)

-- `matchedName != "", matchedName`
abbrev pub match_found : Option (String × ℕ) → Option String
match_found none = none
match_found (some (matched, reads)) = if not (matched == "") then some matched else none

-- `covers` is `Covers` of k8s.io/component-helpers/auth/rbac/validation.
module _ (covers : List PolicyRule → List PolicyRule → Bool) where
  unfoldable pub bridge_rules_allow : List PolicyRule → ResourceAttributes → Bool
  bridge_rules_allow rules attr = covers rules (bridge_request attr ∷ [])

  -- The reading of one kind of roles, by whether one before allowed and how many were read; `none`
  -- is an error, or the limit on reads.
  unfoldable pub check_roles :
      (String → Lookup (List PolicyRule))
      → ResourceAttributes
      → List String
      → Bool
      → ℕ
      → Option (Bool × ℕ)
  check_roles get attr [] allowed reads = some (allowed, reads)
  check_roles get attr (name ∷ names) allowed reads =
      if leb max_bridge_role_reads reads
      then none
      else on_some (found_only (get name)) (λ rules.
        check_roles get attr names (bridge_rules_allow rules attr || allowed) (reads + 1))

  unfoldable pub bridge_binding_allows :
      LiveReader → NamespaceBinding → ResourceAttributes → ℕ → Option (Bool × ℕ)
  bridge_binding_allows live binding attr reads =
      on_some (check_roles live.get_cluster_role attr binding.cluster_role_refs false reads)
        (λ (r : Bool × ℕ).
          check_roles (live.get_role attr.namespace) attr binding.role_refs r.0 r.1)

  unfoldable pub opted_in : NamespaceBinding → Bool
  opted_in binding =
      binding.authorize_before_binding
      && (binding.namespace == "" && nonempty binding.namespace_selector)

  unfoldable pub bridge_selected :
      LiveReader
      → ResourceAttributes
      → String
      → NamespaceBinding
      → String × ℕ
      → Bool
      → Option (String × ℕ)
  bridge_selected live attr name binding (matched, reads) false = some (matched, reads)
  bridge_selected live attr name binding (matched, reads) true =
      on_some (bridge_binding_allows live binding attr reads)
        (λ r. some (after_roles name matched r))

  unfoldable pub bridge_binding :
      Selectors
      → LiveReader
      → ResourceAttributes
      → Namespace
      → String
      → NamespaceBinding
      → String × ℕ
      → Option (String × ℕ)
  bridge_binding sel live attr ns name binding state =
      if not (opted_in binding)
      then some state
      else on_some (bridge_selector_matches sel binding ns.labels)
          (λ m. bridge_selected live attr name binding state m)

  unfoldable pub bridge_bindings :
      Selectors
      → LiveReader
      → ResourceAttributes
      → Namespace
      → String
      → List NamespaceBinding
      → String × ℕ
      → Option (String × ℕ)
  bridge_bindings sel live attr ns name [] state = some state
  bridge_bindings sel live attr ns name (binding ∷ bindings) state =
      on_some (bridge_binding sel live attr ns name binding state)
        (λ state'. bridge_bindings sel live attr ns name bindings state')

  -- A candidate, read again.
  unfoldable pub bridge_candidate :
      Selectors
      → LiveReader
      → SubjectAccessReview
      → ResourceAttributes
      → Namespace
      → Lookup BindDefinition
      → String × ℕ
      → Option (String × ℕ)
  bridge_candidate sel live sar attr ns missing state = some state
  bridge_candidate sel live sar attr ns (unread error) state = none
  bridge_candidate sel live sar attr ns (found bd) state =
      if is_some bd.deletion_timestamp || not (bind_definition_subject_matches sar bd.spec.subjects)
      then some state
      else bridge_bindings sel live attr ns bd.name bd.spec.role_bindings state

  unfoldable pub bridge_definitions :
      Selectors
      → LiveReader
      → SubjectAccessReview
      → ResourceAttributes
      → Namespace
      → List String
      → String × ℕ
      → Option (String × ℕ)
  bridge_definitions sel live sar attr ns [] state = some state
  bridge_definitions sel live sar attr ns (name ∷ names) state =
      on_some (bridge_candidate sel live sar attr ns (live.get_bind_definition name) state)
        (λ state'. bridge_definitions sel live sar attr ns names state')

  unfoldable pub bridge_in_namespace :
      Selectors
      → LiveReader
      → SubjectAccessReview
      → ResourceAttributes
      → List String
      → Lookup Namespace
      → Option String
  bridge_in_namespace sel live sar attr names missing = none
  bridge_in_namespace sel live sar attr names (unread error) = none
  bridge_in_namespace sel live sar attr names (found ns) =
      if not (is_namespace_active ns)
      then none
      else match_found (bridge_definitions sel live sar attr ns names ("", 0))

  -- The bridge behind the choice of candidates, with the cache of scopes that it leaves.
  unfoldable pub bridge_named :
      Selectors
      → LiveReader
      → Option Discovery
      → ℕ
      → ℕ
      → ScopeCache
      → SubjectAccessReview
      → ResourceAttributes
      → Option (List String)
      → Option String × ScopeCache
  bridge_named sel live discovery now later cache sar attr none = (none, cache)
  bridge_named sel live discovery now later cache sar attr (some names) =
      let (namespaced, cache') = bridge_resource_namespaced discovery now later cache attr in
      if not (nonempty names)
      then (none, cache)
      else if not namespaced
      then (none, cache')
      else (bridge_in_namespace sel live sar attr names (live.get_namespace attr.namespace), cache')

  abbrev pub bridge_with :
      Selectors
      → (String → Fallible (List String))
      → Option LiveReader
      → Option Discovery
      → ℕ
      → ℕ
      → ScopeCache
      → SubjectAccessReview
      → Option ResourceAttributes
      → Option String × ScopeCache
  bridge_with sel list (some live) discovery now later cache sar (some attr) =
      if not (bridge_eligible (some attr))
      then (none, cache)
      else bridge_named sel live discovery now later cache sar attr (bridge_candidates list sar)
  bridge_with sel list live discovery now later cache sar attributes = (none, cache)

  -- `bridgeBindDefinition`: the name of the definition that grants the access, and the cache left.
  unfoldable pub bridge_bind_definition :
      Selectors
      → (String → Fallible (List String))
      → Option LiveReader
      → Option Discovery
      → ℕ
      → ℕ
      → ScopeCache
      → SubjectAccessReview
      → Option String × ScopeCache
  bridge_bind_definition sel list live discovery now later cache sar =
      bridge_with sel list live discovery now later cache sar sar.resource_attributes

-- ===== src/Admission/Validate.antt =====
-- namespace_validating_webhook.go, `Handle` and what it asks the BindDefinitions.
pub mod Laws
pub mod Selection
pub mod Inheritance
pub mod Authorization
use auth_operator.Base.{
  ℕ, String, List, Option, none, some, Bool, true, false, not, ◌&&◌, ◌||◌, [], ◌∷◌, ◌==◌, all,
  contains, nonempty, if◌then◌else◌, is_some, on_some, Text, sprintf, plain, str, has_text,
}
use auth_operator.Kube.{Labels, LabelSelector, Selectors, Namespace, Lookup, found, missing, unread}
use auth_operator.Api.Definitions.{NamespaceBinding, BindDefinition}
use auth_operator.Policy.Labels.{Fallible, ok, failed}
use auth_operator.Admission.Ownership.{
  label_key_owner, label_key_addon, label_key_protected, owner_addon, tracked_ownership_keys,
  label_at, label_value, set_label, tracked_of, valid_tracked_ownership_labels,
  find_extra_tracked_key,
}
use auth_operator.Admission.Selectors.{addon_namespace_selector_is_scoped, complete_tracked_labels}
use auth_operator.Admission.Bypass.{
  ServiceAccountInfo, parse_service_account, BypassCheckResult, check_bypass, matches_subjects,
  is_restricted_bind_definition,
}
use auth_operator.Admission.Protection.{
  AdmissionRequest, Response, permitted, denied, errored, NamespaceValidator, Decoded, objects,
  answered, decode_namespaces, check_deletion_protection, check_protection_downgrade,
}
use auth_operator.Admission.Immutability.{validate_label_immutability, cross_validate_legacy_labels}

-- `GetSANamespaceTrackedLabels`; `none` is an error.
abbrev pub valid_labels : Labels → Labels
valid_labels result = if not (valid_tracked_ownership_labels result) then [] else result

abbrev pub tracked_labels_of : Lookup Namespace → Option Labels
tracked_labels_of missing = some []
tracked_labels_of (unread error) = none
tracked_labels_of (found ns) = some (valid_labels (tracked_of ns.labels tracked_ownership_keys))

unfoldable pub get_sa_namespace_tracked_labels :
    (String → Lookup Namespace) → ServiceAccountInfo → Option Labels
get_sa_namespace_tracked_labels get sa_info =
    if not sa_info.is_service_account then some [] else tracked_labels_of (get sa_info.namespace)

unfoldable pub addon_selector_authorizes_namespace : Namespace → LabelSelector → Bool
addon_selector_authorizes_namespace ns selector =
    if not (addon_namespace_selector_is_scoped selector)
    then false
    else if label_value ns.labels label_key_owner == owner_addon
        || not (label_value ns.labels label_key_addon == "")
    then not (label_value (complete_tracked_labels selector) label_key_addon == "")
    else true

abbrev pub same_label : Option String → Option String → Bool
same_label none none = true
same_label none (some b) = false
same_label (some a) none = false
same_label (some a) (some b) = a == b

unfoldable pub has_exact_tracked_labels : Labels → Labels → Bool
has_exact_tracked_labels namespace_labels expected =
    all (λ key. same_label (label_at namespace_labels key) (label_at expected key))
      tracked_ownership_keys

abbrev pub with_protected : Option String → Labels → Labels
with_protected none labels = labels
with_protected (some value) labels = set_label label_key_protected value labels

module _ (sel : Selectors) where
  -- `none` is the error of an invalid selector.
  unfoldable pub namespace_matches_selector : Namespace → LabelSelector → Option Bool
  namespace_matches_selector ns selector =
      if not (addon_selector_authorizes_namespace ns selector)
      then some false
      else on_some (sel.as_selector selector) (λ m. some (m ns.labels))

  abbrev pub matches_synthetic : Namespace → Labels → (Labels → Bool) → Option Bool
  matches_synthetic ns expected m =
      if nonempty expected && not (has_exact_tracked_labels ns.labels expected)
      then some false
      else some (
          m (
            set_label "kubernetes.io/metadata.name" ns.name
              (with_protected (label_at ns.labels label_key_protected) expected)))

  unfoldable pub matches_for_operation : String → Namespace → LabelSelector → Option Bool
  matches_for_operation operation ns selector =
      if not (addon_selector_authorizes_namespace ns selector)
      then some false
      else if not (operation == "CREATE")
      then namespace_matches_selector ns selector
      else on_some (sel.as_selector selector)
          (λ m. matches_synthetic ns (complete_tracked_labels selector) m)

  -- The loop over a binding's selectors, up to the first that matches.
  unfoldable pub any_selector : String → Namespace → List LabelSelector → Option Bool
  any_selector operation ns [] = some false
  any_selector operation ns (selector ∷ selectors) =
      on_some (matches_for_operation operation ns selector)
        (λ m. if m then some true else any_selector operation ns selectors)

  -- A definition's bindings, up to the first that allows.
  unfoldable pub any_binding : String → String → Namespace → List NamespaceBinding → Option Bool
  any_binding operation name ns [] = some false
  any_binding operation name ns (binding ∷ bindings) =
      let rest = any_binding operation name ns bindings in
      if not (binding.namespace == "")
      then if binding.namespace == name then some true else rest
      else on_some (any_selector operation ns binding.namespace_selector)
          (λ m. if m then some true else rest)

  -- The definitions, up to the first that allows.
  unfoldable pub any_definition :
      AdmissionRequest → ServiceAccountInfo → Namespace → List BindDefinition → Option Bool
  any_definition req sa_info ns [] = some false
  any_definition req sa_info ns (bd ∷ definitions) =
      let rest = any_definition req sa_info ns definitions in
      if is_restricted_bind_definition bd.name
      then rest
      else if not (matches_subjects req.username req.groups sa_info bd.spec.subjects)
      then rest
      else on_some (any_binding req.operation req.name ns bd.spec.role_bindings)
          (λ m. if m then some true else rest)

-- `freshBindDefinitionsWithRoleBindings`: the candidates of the cache, read again. `none` is an error.
abbrev pub fresh_one :
    Lookup BindDefinition → Option (List BindDefinition) → Option (List BindDefinition)
fresh_one missing rest = rest
fresh_one (unread error) rest = none
fresh_one (found bd) rest =
    if not (nonempty bd.spec.role_bindings) then rest else on_some rest (λ fresh. some (bd ∷ fresh))

unfoldable pub fresh_of :
    (String → Lookup BindDefinition) → List BindDefinition → Option (List BindDefinition)
fresh_of get [] = some []
fresh_of get (candidate ∷ candidates) = fresh_one (get candidate.name) (fresh_of get candidates)

abbrev pub with_role_bindings : List BindDefinition → List BindDefinition
with_role_bindings [] = []
with_role_bindings (bd ∷ definitions) =
    let rest = with_role_bindings definitions in
    if nonempty bd.spec.role_bindings then bd ∷ rest else rest

abbrev pub all_with_role_bindings : Fallible (List BindDefinition) → Option (List BindDefinition)
all_with_role_bindings (failed error) = none
all_with_role_bindings (ok definitions) = some (with_role_bindings definitions)

-- What the webhook reads: the definitions in the cache, those with bindings by the index or all; and
-- the definitions and namespaces as they are now. `to_lower` is strings.ToLower.
pub record Readers : Type 0 where
  pub indexed_definitions : Fallible (List BindDefinition)
  pub all_definitions : Fallible (List BindDefinition)
  pub get_definition : String → Lookup BindDefinition
  pub get_namespace : String → Lookup Namespace
  pub selectors : Selectors
  pub to_lower : String → String

unfoldable pub is_field_index_error : Readers → String → Bool
is_field_index_error readers error =
    let msg = readers.to_lower error in
    has_text msg "index" && (has_text msg "does not exist" || has_text msg "no index with name")

abbrev pub cached_or_all : Readers → Fallible (List BindDefinition) → Option (List BindDefinition)
cached_or_all readers (ok definitions) = some definitions
cached_or_all readers (failed error) =
    if not (is_field_index_error readers error)
    then none
    else all_with_role_bindings readers.all_definitions

unfoldable pub cached_bind_definitions : Readers → Option (List BindDefinition)
cached_bind_definitions readers = cached_or_all readers readers.indexed_definitions

unfoldable pub fresh_bind_definitions : Readers → Option (List BindDefinition)
fresh_bind_definitions readers =
    on_some (cached_bind_definitions readers)
      (λ candidates. fresh_of readers.get_definition candidates)

abbrev pub internal_error : Response
internal_error = errored 500 "internal namespace admission error"

abbrev pub not_owner : AdmissionRequest → Namespace → Response
not_owner req ns =
    denied
      (sprintf "User %s is not the owner of namespace %s" (str req.username ∷ str ns.name ∷ []))

abbrev pub invalid_labels : Namespace → Response
invalid_labels ns =
    denied (sprintf "Namespace %s has invalid tracked ownership labels" (str ns.name ∷ []))

-- The labels inherited all stand on the target, and it has no tracked one beyond them.
unfoldable pub labels_match : Labels → Labels → Bool
labels_match target inherited =
    all (λ (kv : String × String). same_label (label_at target kv.0) (some kv.1)) inherited
    && find_extra_tracked_key target inherited == ""

abbrev pub by_inheritance : AdmissionRequest → Namespace → Option Labels → Response
by_inheritance req ns none = internal_error
by_inheritance req ns (some inherited) =
    if nonempty inherited && labels_match ns.labels inherited then permitted else not_owner req ns

-- The last resort of a service account that creates or updates.
unfoldable pub last_resort : Readers → AdmissionRequest → ServiceAccountInfo → Namespace → Response
last_resort readers req sa_info ns =
    if sa_info.is_service_account && (req.operation == "CREATE" || req.operation == "UPDATE")
    then by_inheritance req ns (get_sa_namespace_tracked_labels readers.get_namespace sa_info)
    else not_owner req ns

abbrev pub after_definitions :
    Readers → AdmissionRequest → ServiceAccountInfo → Namespace → Option Bool → Response
after_definitions readers req sa_info ns none = internal_error
after_definitions readers req sa_info ns (some true) = permitted
after_definitions readers req sa_info ns (some false) = last_resort readers req sa_info ns

unfoldable pub authorize_via_bind_definitions : Readers → AdmissionRequest → Namespace → Response
authorize_via_bind_definitions readers req ns =
    let sa_info = parse_service_account req.username in
    if not (valid_tracked_ownership_labels ns.labels)
    then invalid_labels ns
    else after_definitions readers req sa_info ns (
        on_some (fresh_bind_definitions readers)
          (λ definitions. any_definition readers.selectors req sa_info ns definitions))

-- The nil response, or else the answer.
abbrev pub or_answer : Option Response → Response → Response
or_answer none next = next
or_answer (some response) next = response

-- The checks of an update's labels.
unfoldable pub check_update :
    NamespaceValidator → BypassCheckResult → Namespace → Namespace → Response → Response
check_update v bypass ns old_ns next =
    or_answer (validate_label_immutability v.tdg_migration ns old_ns bypass) (
      or_answer (cross_validate_legacy_labels v.tdg_migration ns old_ns)
        (if not (valid_tracked_ownership_labels ns.labels) then invalid_labels ns else next))

unfoldable pub handle_decoded :
    NamespaceValidator
    → Readers
    → AdmissionRequest
    → BypassCheckResult
    → Namespace
    → Namespace
    → Response
handle_decoded v readers req bypass ns old_ns =
    let update = req.operation == "UPDATE" in
    let next =
      if bypass.should_bypass
      then permitted
      else authorize_via_bind_definitions readers req (if update then old_ns else ns) in
    if update && not bypass.skip_update_label_checks
    then check_update v bypass ns old_ns next
    else next

abbrev pub on_decoded :
    NamespaceValidator → Readers → AdmissionRequest → BypassCheckResult → Decoded → Response
on_decoded v readers req bypass (answered response) = response
on_decoded v readers req bypass (objects ns old_ns) = handle_decoded v readers req bypass ns old_ns

abbrev pub after_bypass :
    NamespaceValidator → Readers → AdmissionRequest → BypassCheckResult → Response
after_bypass v readers req bypass =
    if bypass.should_bypass && not (req.operation == "UPDATE")
    then permitted
    else on_decoded v readers req bypass (decode_namespaces v req)

unfoldable pub protection : NamespaceValidator → AdmissionRequest → Option Response
protection v req =
    if not v.deletion_protection
    then none
    else if req.operation == "DELETE"
    then check_deletion_protection v req
    else if req.operation == "UPDATE"
    then check_protection_downgrade v req
    else none

-- The bypass of the request.
abbrev pub bypass_of : NamespaceValidator → AdmissionRequest → BypassCheckResult
bypass_of v req =
    check_bypass req.username req.groups req.operation req.name v.tdg_migration
      (not v.disable_capi_operator_update_bypass)

-- `Handle`
unfoldable pub handle : NamespaceValidator → Readers → AdmissionRequest → Response
handle v readers req =
    if not (req.kind == "Namespace")
    then permitted
    else or_answer (protection v req) (after_bypass v readers req (bypass_of v req))

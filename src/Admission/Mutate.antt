-- ===== src/Admission/Mutate.antt =====
-- namespace_mutating_webhook.go: the labels of ownership that a new namespace is given.
pub mod Laws
use auth_operator.Base.{
  ℕ, String, List, Option, none, some, Bool, true, false, not, ◌&&◌, ◌||◌, [], ◌∷◌, ◌==◌, eqb, all,
  length, nonempty, if◌then◌else◌, is_some, on_some, Text, sprintf, plain, str,
}
use auth_operator.Kube.{Labels, LabelSelector, Selectors, Namespace}
use auth_operator.Api.Definitions.{NamespaceBinding, BindDefinition}
use auth_operator.Policy.Labels.{Fallible, ok, failed}
use auth_operator.Admission.Ownership.{
  tracked_ownership_keys, label_at, set_label, valid_tracked_ownership_labels,
  find_extra_tracked_key,
}
use auth_operator.Admission.Selectors.{complete_tracked_labels}
use auth_operator.Admission.Bypass.{
  ServiceAccountInfo, parse_service_account, check_bypass, matches_subjects,
  is_restricted_bind_definition,
}
use auth_operator.Admission.Protection.{AdmissionRequest}
use auth_operator.Admission.Validate.{
  Readers, same_label, namespace_matches_selector, matches_for_operation, fresh_bind_definitions,
  get_sa_namespace_tracked_labels,
}

-- The fields of `NamespaceMutator`, the decoder, and the error of encoding the namespace as JSON.
pub record NamespaceMutator : Type 0 where
  pub decode : String → Fallible Namespace
  pub tdg_migration : Bool
  pub disable_capi_operator_update_bypass : Bool
  pub marshal_error : Labels → Option String

-- The answers; a patch gives the namespace the labels.
pub data Mutation : Type 0 where
  allowed : String → Mutation
  refused : Text → Mutation
  failure : ℕ → String → Mutation
  patched : Labels → Mutation

abbrev pub invalid_ownership : Namespace → Mutation
invalid_ownership ns =
    refused (sprintf "Namespace %s has invalid tracked ownership labels" (str ns.name ∷ []))

-- The labels added where their keys are missing.
unfoldable pub add_missing : Labels → Labels → Labels
add_missing [] labels = labels
add_missing ((key, value) ∷ more) labels =
    add_missing more (if is_some (label_at labels key) then labels else set_label key value labels)

-- The labels set, over those there.
unfoldable pub set_labels : Labels → Labels → Labels
set_labels [] labels = labels
set_labels ((key, value) ∷ more) labels = set_labels more (set_label key value labels)

-- The namespace before an update that leaves the ownership, none for another request; or an answer.
pub data Unchanged : Type 0 where
  before : Option Namespace → Unchanged
  ends : Mutation → Unchanged

abbrev pub first_changed : Labels → Labels → List String → Option String
first_changed old_labels labels [] = none
first_changed old_labels labels (key ∷ keys) =
    let rest = first_changed old_labels labels keys in
    if not (same_label (label_at old_labels key) (label_at labels key)) then some key else rest

abbrev pub if_unchanged : Namespace → Namespace → Option String → Unchanged
if_unchanged ns old_ns (some key) =
    ends (refused (sprintf "Modification of label '%s' is not allowed" (str key ∷ [])))
if_unchanged ns old_ns none =
    if not (valid_tracked_ownership_labels ns.labels)
    then ends (invalid_ownership ns)
    else before (some old_ns)

abbrev pub decoded_old : Namespace → Fallible Namespace → Unchanged
decoded_old ns (failed error) = ends (failure 400 "unable to decode previous namespace request")
decoded_old ns (ok old_ns) =
    if_unchanged ns old_ns (first_changed old_ns.labels ns.labels tracked_ownership_keys)

unfoldable pub unchanged_update_namespace :
    NamespaceMutator → AdmissionRequest → Namespace → Unchanged
unchanged_update_namespace m req ns =
    if not (req.operation == "UPDATE") || req.old_object == ""
    then before none
    else decoded_old ns (m.decode req.old_object)

-- The labels collected and whether a binding matched; or one of the errors.
pub data Collected : Type 0 where
  collected : Labels → Bool → Collected
  ambiguous : Collected
  unreadable : Collected

abbrev pub then_collect : Collected → (Labels → Bool → Collected) → Collected
then_collect (collected labels matched) go = go labels matched
then_collect ambiguous go = ambiguous
then_collect unreadable go = unreadable

abbrev pub equal_labels : Labels → Labels → Bool
equal_labels a b =
    eqb (length a) (length b)
    && all (λ (kv : String × String). same_label (label_at b kv.0) (some kv.1)) a

module _ (sel : Selectors) (ns : Namespace) where
  unfoldable pub tracked_labels_for_creation : LabelSelector → Option Labels
  tracked_labels_for_creation selector =
      let derived = complete_tracked_labels selector in
      if not (nonempty derived)
      then some derived
      else on_some
          (matches_for_operation sel "CREATE"
            (record {
              name = ns.name;
              labels = add_missing derived ns.labels;
              annotations = ns.annotations;
              phase = ns.phase;
            })
            selector)
          (λ m. some (if m then derived else []))

  abbrev pub on_unchanged : LabelSelector → Labels → Bool → Option Bool → Collected
  on_unchanged selector to_add matched none = unreadable
  on_unchanged selector to_add matched (some false) = collected to_add matched
  on_unchanged selector to_add matched (some true) =
      collected (set_labels (complete_tracked_labels selector) to_add) true

  abbrev pub on_created : Labels → Bool → Option Labels → Collected
  on_created to_add matched none = unreadable
  on_created to_add matched (some labels) =
      if nonempty labels && (nonempty to_add && not (equal_labels to_add labels))
      then ambiguous
      else collected (set_labels labels to_add) matched

  abbrev pub collect_selector : Option Namespace → LabelSelector → Labels → Bool → Collected
  collect_selector (some old_ns) selector to_add matched =
      on_unchanged selector to_add matched (namespace_matches_selector sel old_ns selector)
  collect_selector none selector to_add matched =
      on_created to_add matched (tracked_labels_for_creation selector)

  unfoldable pub collect_selectors :
      Option Namespace → List LabelSelector → Labels → Bool → Collected
  collect_selectors unchanged [] to_add matched = collected to_add matched
  collect_selectors unchanged (s ∷ selectors) to_add matched =
      then_collect (collect_selector unchanged s to_add matched)
        (λ labels m. collect_selectors unchanged selectors labels m)

  unfoldable pub collect_bindings :
      Option Namespace → List NamespaceBinding → Labels → Bool → Collected
  collect_bindings unchanged [] to_add matched = collected to_add matched
  collect_bindings unchanged (b ∷ bindings) to_add matched =
      then_collect
        (if not (b.namespace == "")
          then collected to_add (matched || b.namespace == ns.name)
          else collect_selectors unchanged b.namespace_selector to_add matched)
        (λ labels m. collect_bindings unchanged bindings labels m)

  unfoldable pub collect_definitions :
      AdmissionRequest
      → ServiceAccountInfo
      → Option Namespace
      → List BindDefinition
      → Labels
      → Bool
      → Collected
  collect_definitions req sa_info unchanged [] to_add matched = collected to_add matched
  collect_definitions req sa_info unchanged (bd ∷ definitions) to_add matched =
      then_collect
        (if is_restricted_bind_definition bd.name
            || not (matches_subjects req.username req.groups sa_info bd.spec.subjects)
          then collected to_add matched
          else collect_bindings unchanged bd.spec.role_bindings to_add matched)
        (λ labels m. collect_definitions req sa_info unchanged definitions labels m)

  abbrev pub collect_of :
      AdmissionRequest
      → ServiceAccountInfo
      → Option Namespace
      → Option (List BindDefinition)
      → Collected
  collect_of req sa_info unchanged none = unreadable
  collect_of req sa_info unchanged (some definitions) =
      collect_definitions req sa_info unchanged definitions [] false

abbrev pub conflict_at :
    AdmissionRequest
    → ServiceAccountInfo
    → String
    → String
    → Option String
    → Option Mutation
    → Option Mutation
conflict_at req sa_info key value none rest = rest
conflict_at req sa_info key value (some existing) rest =
    if not (existing == value)
    then some (
        refused (
          sprintf
            "Namespace %s already has label %s=%s which conflicts with inherited value %s from SA namespace %s"
            (str req.name ∷ str key ∷ str existing ∷ str value ∷ str sa_info.namespace ∷ [])))
    else rest

-- The inherited labels that the namespace has with another value; the source reads them in any order.
unfoldable pub first_conflict :
    AdmissionRequest → ServiceAccountInfo → Labels → Labels → Option Mutation → Option Mutation
first_conflict req sa_info labels [] rest = rest
first_conflict req sa_info labels ((key, value) ∷ inherited) rest =
    conflict_at req sa_info key value (label_at labels key)
      (first_conflict req sa_info labels inherited rest)

unfoldable pub deny_conflicting_inherited_labels :
    AdmissionRequest → ServiceAccountInfo → Namespace → Labels → Option Mutation
deny_conflicting_inherited_labels req sa_info ns inherited =
    let extra = find_extra_tracked_key ns.labels inherited in
    first_conflict req sa_info ns.labels inherited (
      if not (extra == "")
      then some (
          refused (
            sprintf "Namespace %s has tracked label %s not present on SA source namespace %s"
              (str req.name ∷ str extra ∷ str sa_info.namespace ∷ [])))
      else none)

abbrev pub unless_refused : Option Mutation → Mutation → Mutation
unless_refused (some answer) next = answer
unless_refused none next = next

abbrev pub encoded : Labels → Option String → Mutation
encoded labels none = patched labels
encoded labels (some error) = failure 500 error

-- A patch with the labels that are missing.
unfoldable pub apply_label_patch : NamespaceMutator → Namespace → Labels → Mutation
apply_label_patch m ns to_add =
    let labels = add_missing to_add ns.labels in encoded labels (m.marshal_error labels)

-- The end of `Handle`, by the labels to add.
unfoldable pub finish : NamespaceMutator → Namespace → Bool → Labels → Mutation
finish m ns matched to_add =
    if nonempty to_add
    then if not (valid_tracked_ownership_labels (set_labels to_add ns.labels))
      then invalid_ownership ns
      else apply_label_patch m ns to_add
    else if matched
    then if not (valid_tracked_ownership_labels ns.labels)
      then invalid_ownership ns
      else allowed "Explicit namespace binding matched"
    else refused (
        plain
          "No matching BindDefinition subjects found for this caller and the caller is not a cluster admin. Namespace operation is not allowed.")

abbrev pub with_inherited :
    NamespaceMutator
    → AdmissionRequest
    → ServiceAccountInfo
    → Namespace
    → Bool
    → Labels
    → Option Labels
    → Mutation
with_inherited m req sa_info ns matched to_add none =
    failure 500 "internal namespace admission error"
with_inherited m req sa_info ns matched to_add (some inherited) =
    if not (nonempty inherited)
    then finish m ns matched to_add
    else unless_refused (deny_conflicting_inherited_labels req sa_info ns inherited)
        (finish m ns matched inherited)

unfoldable pub inherit :
    NamespaceMutator
    → Readers
    → AdmissionRequest
    → ServiceAccountInfo
    → Namespace
    → Bool
    → Labels
    → Mutation
inherit m readers req sa_info ns matched to_add =
    if nonempty to_add || not sa_info.is_service_account
    then finish m ns matched to_add
    else with_inherited m req sa_info ns matched to_add
        (get_sa_namespace_tracked_labels readers.get_namespace sa_info)

abbrev pub after_collection :
    NamespaceMutator
    → Readers
    → AdmissionRequest
    → ServiceAccountInfo
    → Namespace
    → Option Namespace
    → Collected
    → Mutation
after_collection m readers req sa_info ns unchanged ambiguous = refused (
    plain
      "namespace ownership is ambiguous across matching BindDefinition selectors; supply explicit ownership labels")
after_collection m readers req sa_info ns unchanged unreadable =
    failure 500 "internal namespace admission error"
after_collection m readers req sa_info ns unchanged (collected to_add matched) =
    if matched && is_some unchanged
    then allowed "Namespace binding matched unchanged ownership"
    else inherit m readers req sa_info ns matched to_add

abbrev pub mutate_unchanged :
    NamespaceMutator → Readers → AdmissionRequest → Namespace → Unchanged → Mutation
mutate_unchanged m readers req ns (ends answer) = answer
mutate_unchanged m readers req ns (before unchanged) =
    let sa_info = parse_service_account req.username in
    after_collection m readers req sa_info ns unchanged
      (collect_of readers.selectors ns req sa_info unchanged (fresh_bind_definitions readers))

abbrev pub mutate_decoded :
    NamespaceMutator → Readers → AdmissionRequest → Fallible Namespace → Mutation
mutate_decoded m readers req (failed error) = failure 400 "unable to decode namespace request"
mutate_decoded m readers req (ok ns) =
    mutate_unchanged m readers req ns (unchanged_update_namespace m req ns)

-- `Handle` of the mutating webhook.
unfoldable pub mutate : NamespaceMutator → Readers → AdmissionRequest → Mutation
mutate m readers req =
    if not (req.operation == "CREATE") && not (req.operation == "UPDATE")
    then allowed "Operation is neither CREATE nor UPDATE"
    else if (check_bypass req.username req.groups req.operation req.name m.tdg_migration
        (not m.disable_capi_operator_update_bypass)).should_bypass
    then allowed ""
    else mutate_decoded m readers req (m.decode req.object)

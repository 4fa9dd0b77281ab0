-- ===== src/Admission/Tests.antt =====
-- Runs of the admission at fixed inputs, and the properties applied to them.
mod Mutating
use auth_operator.Base.{
  String, List, none, some, Bool, true, false, [], ◌∷◌, ◌==◌, Any, All, ◌≡◌, refl, ◌↔◌, ◌⊎◌, inl,
  if◌then◌else◌, split, has_suffix, cut_suffix,
}
use auth_operator.Kube.{Subject, Namespace, found, missing}
use auth_operator.Api.Definitions.{BindDefinition}
use auth_operator.Policy.Labels.{Fallible, ok, failed}
use auth_operator.Admission.Ownership.{
  label_key_owner, annotation_key_allow_deletion, label_at, tracked_of,
  valid_tracked_ownership_labels,
}
use auth_operator.Admission.Bypass.{
  parse_service_account, check_bypass, matches_subjects, is_restricted_bind_definition,
}
use auth_operator.Admission.Protection.{
  AdmissionRequest, Response, permitted, denied, NamespaceValidator, objects, empty_namespace,
  decode_namespaces, is_hard_protected_namespace, is_deletion_protected, allows_deletion,
  check_deletion_protection, check_protection_downgrade,
}
use auth_operator.Admission.Protection.Laws.{
  HardProtected, Protected, Unlocked, check_deletion_protection-eq-none_iff,
}
use auth_operator.Admission.Immutability.{
  label_keys, detect_owner_reclassification, key_denied, first_denied, validate_label_immutability,
  cross_validate_legacy_labels,
}
use auth_operator.Admission.Immutability.Laws.{Keeps}
use auth_operator.Admission.Validate.{
  Readers, any_binding, any_definition, fresh_of, cached_bind_definitions, fresh_bind_definitions,
  authorize_via_bind_definitions, check_update, handle_decoded, protection, bypass_of, handle,
}
use auth_operator.Admission.Validate.Laws.{start, update, History-Unlocked, handle-Keeps}
use auth_operator.Admission.Validate.Authorization.{
  DefinitionAuthorizes, ReadDefinition, Inherits, authorize_via_bind_definitions-permitted,
}

-- A namespace of the platform, before and after it is unlocked.
abbrev locked : Namespace
locked = record {
  name = "infra";
  labels = (label_key_owner, "platform") ∷ [];
  annotations = [];
  phase = "Active";
}

abbrev unlocked : Namespace
unlocked = record {
  name = "infra";
  labels = (label_key_owner, "platform") ∷ [];
  annotations = (annotation_key_allow_deletion, "true") ∷ [];
  phase = "Active";
}

abbrev decode : String → Fallible Namespace
decode raw =
    if raw == "locked"
    then ok locked
    else if raw == "unlocked"
    then ok unlocked
    else failed "no object"

abbrev validator : NamespaceValidator
validator = record {
  decode = decode;
  tdg_migration = false;
  disable_capi_operator_update_bypass = false;
  deletion_protection = true;
  extra_protected_namespaces = "vault" ∷ [];
}

abbrev carol : Subject
carol = record {
  kind = "User";
  api_group = "rbac.authorization.k8s.io";
  name = "carol";
  namespace = "";
}

abbrev platform : BindDefinition
platform = record {
  name = "platform";
  deletion_timestamp = none;
  spec = record {
    target_name = "platform";
    subjects = carol ∷ [];
    external_service_account_refs = [];
    cluster_role_bindings = record { cluster_role_refs = [] };
    role_bindings =
        record {
          authorize_before_binding = false;
          cluster_role_refs = [];
          role_refs = [];
          namespace = "infra";
          namespace_selector = [];
        }
        ∷ [];
    automount_service_account_token = none;
  };
}

abbrev readers : Readers
readers = record {
  indexed_definitions = ok (platform ∷ []);
  all_definitions = ok (platform ∷ []);
  get_definition = λ name. if name == "platform" then found platform else missing;
  get_namespace = λ name. missing;
  selectors = record { as_selector = λ s. some (λ labels. true) };
  to_lower = λ s. s;
}

abbrev sends : String → String → String → String → AdmissionRequest
sends username operation object old_object = record {
  kind = "Namespace";
  operation = operation;
  name = "infra";
  username = username;
  groups = [];
  object = object;
  old_object = old_object;
}

abbrev is_denied : Response → Bool
is_denied (denied text) = true
is_denied response = false

-- Not even an administrator deletes the namespace while it is locked.
admin_is_refused :
    is_denied (handle validator readers (sends "kubernetes-admin" "DELETE" "" "locked")) ≡ true
unfolding handle protection check_deletion_protection is_hard_protected_namespace decode_namespaces
    is_deletion_protected allows_deletion label_at
admin_is_refused = refl

unlocks : handle validator readers (sends "carol" "UPDATE" "unlocked" "locked") ≡ permitted
unfolding handle protection check_protection_downgrade decode_namespaces is_deletion_protected
    allows_deletion label_at check_bypass handle_decoded check_update validate_label_immutability
    detect_owner_reclassification first_denied key_denied label_keys cross_validate_legacy_labels
    valid_tracked_ownership_labels tracked_of authorize_via_bind_definitions parse_service_account
    split fresh_bind_definitions cached_bind_definitions fresh_of any_definition
    is_restricted_bind_definition has_suffix cut_suffix matches_subjects any_binding
unlocks = refl

deletes : handle validator readers (sends "carol" "DELETE" "" "unlocked") ≡ permitted
unfolding handle protection check_deletion_protection is_hard_protected_namespace decode_namespaces
    is_deletion_protected allows_deletion label_at check_bypass handle_decoded
    valid_tracked_ownership_labels tracked_of authorize_via_bind_definitions parse_service_account
    split fresh_bind_definitions cached_bind_definitions fresh_of any_definition
    is_restricted_bind_definition has_suffix cut_suffix matches_subjects any_binding
deletes = refl

sent_update :
    decode_namespaces validator (sends "carol" "UPDATE" "unlocked" "locked")
    ≡ objects unlocked locked
unfolding decode_namespaces
sent_update = refl

sent_delete :
    decode_namespaces validator (sends "carol" "DELETE" "" "unlocked")
    ≡ objects unlocked empty_namespace
unfolding decode_namespaces
sent_delete = refl

of_platform : Protected validator locked
unfolding label_at
of_platform = inl refl

History-Unlocked_example : Any Unlocked (locked ∷ unlocked ∷ [])
History-Unlocked_example =
    History-Unlocked validator readers refl locked unlocked (unlocked ∷ []) of_platform
      (update locked unlocked unlocked []
        (record {
          req = sends "carol" "UPDATE" "unlocked" "locked";
          kind = refl;
          operation = refl;
          sent = sent_update;
          admitted = unlocks;
        })
        (start unlocked))
      (record {
        req = sends "carol" "DELETE" "" "unlocked";
        kind = refl;
        operation = refl;
        sent = sent_delete;
        admitted = deletes;
      })

no_changes :
    (bypass_of validator (sends "carol" "UPDATE" "unlocked" "locked")).allow_protected_label_changes
    ≡ false
unfolding check_bypass
no_changes = refl

handle-Keeps_example : All (Keeps unlocked locked) (label_keys false)
handle-Keeps_example =
    handle-Keeps validator readers (sends "carol" "UPDATE" "unlocked" "locked") unlocked locked refl
      refl sent_update no_changes unlocks

check_deletion_protection-eq-none_iff_example :
    (check_deletion_protection validator (sends "carol" "DELETE" "" "unlocked") ≡ none) ↔ (
      (¬ HardProtected validator "infra")
      × ((ns : Namespace) × (old_ns : Namespace) × (decode_namespaces validator
              (sends "carol" "DELETE" "" "unlocked")
            ≡ objects ns old_ns)
          × ((¬ Protected validator ns) ⊎ Unlocked ns)))
check_deletion_protection-eq-none_iff_example =
    check_deletion_protection-eq-none_iff validator (sends "carol" "DELETE" "" "unlocked")

owns :
    authorize_via_bind_definitions readers (sends "carol" "DELETE" "" "unlocked") unlocked
    ≡ permitted
unfolding label_at valid_tracked_ownership_labels tracked_of authorize_via_bind_definitions
    parse_service_account split fresh_bind_definitions cached_bind_definitions fresh_of
    any_definition is_restricted_bind_definition has_suffix cut_suffix matches_subjects any_binding
owns = refl

authorize_via_bind_definitions-permitted_example :
    (valid_tracked_ownership_labels unlocked.labels ≡ true)
    × (ReadDefinition readers (
          DefinitionAuthorizes readers.selectors
            (sends "carol" "DELETE" "" "unlocked")
            (parse_service_account "carol")
            unlocked)
        ⊎ Inherits readers
            (sends "carol" "DELETE" "" "unlocked")
            (parse_service_account "carol")
            unlocked)
authorize_via_bind_definitions-permitted_example =
    authorize_via_bind_definitions-permitted readers (sends "carol" "DELETE" "" "unlocked") unlocked
      owns

-- ===== src/Admission/Protection.antt =====
-- namespace_deletion_protection.go, with the request, the answer and decodeNamespaces of
-- namespace_validating_webhook.go.
pub mod Laws
use auth_operator.Base.{
  ℕ, String, List, Option, none, some, Bool, true, false, not, ◌&&◌, ◌||◌, [], ◌∷◌, ◌==◌, contains,
  nonempty, if◌then◌else◌, Text, sprintf, plain, str,
}
use auth_operator.Kube.{Labels, Namespace}
use auth_operator.Policy.Labels.{Fallible, ok, failed}
use auth_operator.Admission.Ownership.{
  label_key_owner, label_key_deletion_protection, annotation_key_allow_deletion, legacy_owner_label,
  owner_platform, label_value,
}

-- admission.Request; the objects are as they were sent, "" if there is none.
pub record AdmissionRequest : Type 0 where
  pub kind : String
  pub operation : String
  pub name : String
  pub username : String
  pub groups : List String
  pub object : String
  pub old_object : String

-- admission.Response, by its constructors; the number is the HTTP status of an error.
pub data Response : Type 0 where
  permitted : Response
  denied : Text → Response
  errored : ℕ → String → Response

-- The fields of `NamespaceValidator`, and the decoder, a library's.
pub record NamespaceValidator : Type 0 where
  pub decode : String → Fallible Namespace
  pub tdg_migration : Bool
  pub disable_capi_operator_update_bypass : Bool
  pub deletion_protection : Bool
  pub extra_protected_namespaces : List String

-- Two namespaces, or an answer in their place.
pub data Decoded : Type 0 where
  objects : Namespace → Namespace → Decoded
  answered : Response → Decoded

abbrev pub empty_namespace : Namespace
empty_namespace = record { name = ""; labels = []; annotations = []; phase = "" }

abbrev pub bad_request : Response
bad_request = errored 400 "unable to decode namespace request"

-- `ns` alone is decoded.
abbrev pub decoded_one : Fallible Namespace → Decoded
decoded_one (failed error) = answered bad_request
decoded_one (ok ns) = objects ns empty_namespace

abbrev pub decoded_two : Fallible Namespace → Fallible Namespace → Decoded
decoded_two (failed error) old = answered bad_request
decoded_two (ok ns) (failed error) = answered bad_request
decoded_two (ok ns) (ok old_ns) = objects ns old_ns

unfoldable pub decode_namespaces : NamespaceValidator → AdmissionRequest → Decoded
decode_namespaces v req =
    if req.operation == "CREATE"
    then decoded_one (v.decode req.object)
    else if req.operation == "UPDATE"
    then decoded_two (v.decode req.object) (v.decode req.old_object)
    else if req.operation == "DELETE"
    then if not (req.old_object == "")
      then decoded_one (v.decode req.old_object)
      else if not (req.object == "")
      then decoded_one (v.decode req.object)
      else answered bad_request
    else answered permitted

abbrev pub hard_protected_namespaces : List String
hard_protected_namespaces = "kube-system" ∷ "kube-public" ∷ "kube-node-lease" ∷ "default" ∷ []

unfoldable pub is_hard_protected_namespace : String → List String → Bool
is_hard_protected_namespace name extra =
    contains hard_protected_namespaces name || contains extra name

unfoldable pub is_deletion_protected : Namespace → Bool → Bool
is_deletion_protected ns tdg_migration =
    let legacy = label_value ns.labels legacy_owner_label in
    label_value ns.labels label_key_owner == owner_platform
    || ((tdg_migration && (legacy == owner_platform || legacy == "schiff"))
        || label_value ns.labels label_key_deletion_protection == "enabled")

unfoldable pub allows_deletion : Namespace → Bool
allows_deletion ns = label_value ns.annotations annotation_key_allow_deletion == "true"

abbrev pub after_decoding : Decoded → (Namespace → Namespace → Option Response) → Option Response
after_decoding (answered response) go = some response
after_decoding (objects ns old_ns) go = go ns old_ns

abbrev pub deny_deletion : NamespaceValidator → AdmissionRequest → Namespace → Option Response
deny_deletion v req ns =
    if not (is_deletion_protected ns v.tdg_migration)
    then none
    else if allows_deletion ns
    then none
    else some (
        denied (
          sprintf
            "Namespace %s is deletion-protected; annotate it with %s=\"true\" and retry to confirm deletion"
            (str req.name ∷ str annotation_key_allow_deletion ∷ [])))

-- `none` is the nil response: the request goes on.
unfoldable pub check_deletion_protection : NamespaceValidator → AdmissionRequest → Option Response
check_deletion_protection v req =
    if is_hard_protected_namespace req.name v.extra_protected_namespaces
    then some (
        denied (
          sprintf "Namespace %s is a protected system namespace and cannot be deleted"
            (str req.name ∷ [])))
    else after_decoding (decode_namespaces v req) (λ ns old_ns. deny_deletion v req ns)

abbrev pub deny_downgrade :
    NamespaceValidator → AdmissionRequest → Namespace → Namespace → Option Response
deny_downgrade v req ns old_ns =
    if not (is_deletion_protected old_ns v.tdg_migration)
      || is_deletion_protected ns v.tdg_migration
    then none
    else if allows_deletion ns
    then none
    else some (
        denied (
          sprintf
            "Namespace %s is deletion-protected; removing protection labels requires the %s=\"true\" annotation"
            (str req.name ∷ str annotation_key_allow_deletion ∷ [])))

unfoldable pub check_protection_downgrade : NamespaceValidator → AdmissionRequest → Option Response
check_protection_downgrade v req =
    after_decoding (decode_namespaces v req) (λ ns old_ns. deny_downgrade v req ns old_ns)

-- ===== src/Admission/Bypass.antt =====
-- helpers.go: who is asking, and who passes by the checks.
use auth_operator.Base.{
  String, List, Bool, true, false, ◌&&◌, [], ◌∷◌, ◌==◌, any, contains, if◌then◌else◌, split,
  has_suffix,
}
use auth_operator.Kube.{Subject}

pub record ServiceAccountInfo : Type 0 where
  pub namespace : String
  pub name : String
  pub is_service_account : Bool

abbrev pub no_account : ServiceAccountInfo
no_account = record { namespace = ""; name = ""; is_service_account = false }

abbrev pub account_parts : List String → ServiceAccountInfo
account_parts (a ∷ b ∷ namespace ∷ name ∷ []) =
    if a == "system" && b == "serviceaccount"
    then record { namespace = namespace; name = name; is_service_account = true }
    else no_account
account_parts parts = no_account

unfoldable pub parse_service_account : String → ServiceAccountInfo
parse_service_account username = account_parts (split username ":")

pub record BypassCheckResult : Type 0 where
  pub should_bypass : Bool
  pub skip_update_label_checks : Bool
  pub allow_protected_label_changes : Bool
  pub reason : String

abbrev pub full_bypass : String → BypassCheckResult
full_bypass reason = record {
  should_bypass = true;
  skip_update_label_checks = true;
  allow_protected_label_changes = true;
  reason = reason;
}

abbrev pub update_bypass : Bool → String → BypassCheckResult
update_bypass allow_changes reason = record {
  should_bypass = true;
  skip_update_label_checks = false;
  allow_protected_label_changes = allow_changes;
  reason = reason;
}

abbrev pub no_bypass : BypassCheckResult
no_bypass = record {
  should_bypass = false;
  skip_update_label_checks = false;
  allow_protected_label_changes = false;
  reason = "";
}

-- The accounts of the migration.
abbrev pub migration_bypass : String → String → String → BypassCheckResult
migration_bypass username operation namespace =
    if username == "system:serviceaccount:flux-system:helm-controller"
    then update_bypass true "helm-controller (tdgMigration)"
    else if username == "system:serviceaccount:flux-system:kustomize-controller"
    then update_bypass true "kustomize-controller (tdgMigration)"
    else if username == "system:serviceaccount:schiff-tenant:m2m-sa"
    then update_bypass true "schiff-tenant m2m-sa (tdgMigration)"
    else if username == "system:serviceaccount:schiff-system:m2m-sa"
    then update_bypass true "schiff-system m2m-sa (tdgMigration)"
    else if username == "system:serviceaccount:trident-system:trident-operator"
        && (operation == "UPDATE" && namespace == "trident-system")
    then update_bypass true "trident-operator for trident-system (tdgMigration)"
    else no_bypass

unfoldable pub check_bypass :
    String → List String → String → String → Bool → Bool → BypassCheckResult
check_bypass username groups operation namespace tdg_migration capi_operator_update_bypass =
    if username == "kubernetes-admin"
    then full_bypass "kubernetes-admin"
    else if contains groups "system:masters"
    then full_bypass "system:masters"
    else if username == "system:serviceaccount:t-caas-storage:trident-operator"
        && (operation == "UPDATE" && namespace == "t-caas-storage")
    then update_bypass false "trident-operator for t-caas-storage"
    else if capi_operator_update_bypass
        && (username == "system:serviceaccount:capi-operator-system:capi-operator-manager"
            && operation == "UPDATE")
    then update_bypass false "capi-operator-manager"
    else if tdg_migration
    then migration_bypass username operation namespace
    else no_bypass

abbrev pub subject_is : String → List String → ServiceAccountInfo → Subject → Bool
subject_is username user_groups sa_info subject =
    if subject.kind == "User"
    then subject.name == username
    else if subject.kind == "Group"
    then contains user_groups subject.name
    else if subject.kind == "ServiceAccount"
    then sa_info.is_service_account
      && (subject.namespace == sa_info.namespace && subject.name == sa_info.name)
    else false

unfoldable pub matches_subjects : String → List String → ServiceAccountInfo → List Subject → Bool
matches_subjects username user_groups sa_info subjects =
    any (subject_is username user_groups sa_info) subjects

unfoldable pub is_restricted_bind_definition : String → Bool
is_restricted_bind_definition name = has_suffix name "-namespaced-reader-restricted"

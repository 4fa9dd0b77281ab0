-- ===== src/Admission/Tests/Mutating.antt =====
-- The property of the mutating webhook, applied to a namespace that a service account creates.
use auth_operator.Base.{none, some, true, false, [], ◌∷◌, ◌==◌, if◌then◌else◌}
use auth_operator.Kube.{Labels, Namespace, found, missing}
use auth_operator.Policy.Labels.{ok, failed}
use auth_operator.Admission.Ownership.{label_key_owner}
use auth_operator.Admission.Protection.{AdmissionRequest}
use auth_operator.Admission.Validate.{Readers}
use auth_operator.Admission.Mutate.{NamespaceMutator}

abbrev fresh : Namespace
fresh = record { name = "jobs"; labels = ("app", "jobs") ∷ []; annotations = []; phase = "Active" }

-- The namespace of the service account.
abbrev apps : Namespace
apps = record {
  name = "apps";
  labels = (label_key_owner, "platform") ∷ [];
  annotations = [];
  phase = "Active";
}

abbrev mutator : NamespaceMutator
mutator = record {
  decode = λ raw. if raw == "fresh" then ok fresh else failed "no object";
  tdg_migration = false;
  disable_capi_operator_update_bypass = true;
  marshal_error = λ labels. none;
}

abbrev no_definitions : Readers
no_definitions = record {
  indexed_definitions = ok [];
  all_definitions = ok [];
  get_definition = λ name. missing;
  get_namespace = λ name. if name == "apps" then found apps else missing;
  selectors = record { as_selector = λ s. some (λ labels. true) };
  to_lower = λ s. s;
}

abbrev creates : AdmissionRequest
creates = record {
  kind = "Namespace";
  operation = "CREATE";
  name = "jobs";
  username = "system:serviceaccount:apps:deployer";
  groups = [];
  object = "fresh";
  old_object = "";
}

abbrev given : Labels
given = ("app", "jobs") ∷ (label_key_owner, "platform") ∷ []

-- ===== src/Admission/Immutability/Laws.antt =====
-- What an update that passes the checks leaves as it was.
use auth_operator.Base.{
  String, List, Option, none, some, Bool, true, false, [], ◌∷◌, eq_iff, ◌≡◌, refl, ap, ◌↔◌, arith,
  All, is_some, passes_iff,
}
use auth_operator.Kube.{Labels, Namespace}
use auth_operator.Admission.Ownership.{label_key_owner, label_at}
use auth_operator.Admission.Bypass.{BypassCheckResult}
use auth_operator.Admission.Protection.Laws.{refuses, if_refuses}
use auth_operator.Admission.Immutability.{
  label_keys, detect_owner_reclassification, deny_label, key_denied, first_denied,
  validate_label_immutability,
}

-- Both namespaces have the label with one value, or neither has it.
abbrev pub Keeps : Namespace → Namespace → String → Type 0
Keeps ns old_ns key = label_at old_ns.labels key ≡ label_at ns.labels key

key_denied-kept_iff :
    (bypass : BypassCheckResult) (owned : Bool) (key : String) (old new : Option String)
    → bypass.allow_protected_label_changes ≡ false
    → (key_denied bypass false owned key old new ≡ false) ↔ (old ≡ new)
unfolding key_denied
key_denied-kept_iff bypass owned key none none h = ground arith
key_denied-kept_iff bypass owned key none (some b) h =
    (λ e. (let f : true ≡ false = ground arith in cc), λ e. cc)
key_denied-kept_iff bypass owned key (some a) none h =
    (λ e. (let f : true ≡ false = ground arith in cc), λ e. cc)
key_denied-kept_iff bypass owned key (some a) (some b) h = (
  λ e. ap some ((eq_iff a b).0 (ground arith)),
  λ e. (let same : a ≡ b = cc in let t = (eq_iff a b).1 same in ground arith),
)

first_denied-kept_iff :
    (bypass : BypassCheckResult) (owned : Bool) (ns old_ns : Namespace) (keys : List String)
    → bypass.allow_protected_label_changes ≡ false
    → (first_denied bypass false owned ns.labels old_ns.labels keys ≡ none)
      ↔ All (Keeps ns old_ns) keys
unfolding first_denied
first_denied-kept_iff bypass owned ns old_ns [] h = (λ _. tt, λ _. refl)
first_denied-kept_iff bypass owned ns old_ns (key ∷ keys) h =
    passes_iff
      (key_denied bypass false owned key (label_at old_ns.labels key) (label_at ns.labels key))
      (deny_label key) _
      (key_denied-kept_iff bypass owned key (label_at old_ns.labels key) (label_at ns.labels key) h)
      (first_denied-kept_iff bypass owned ns old_ns keys h)

-- An update by a principal that may not change protected labels passes exactly when each of the
-- controlled labels, the old owner's among them during the migration, has the same value before and
-- after, or is in neither.
pub validate_label_immutability-Keeps_iff :
    (tdg_migration : Bool) (ns old_ns : Namespace) (bypass : BypassCheckResult)
    → bypass.allow_protected_label_changes ≡ false
    → (validate_label_immutability tdg_migration ns old_ns bypass ≡ none)
      ↔ All (Keeps ns old_ns) (label_keys tdg_migration)
unfolding validate_label_immutability detect_owner_reclassification
validate_label_immutability-Keeps_iff tdg_migration ns old_ns bypass h =
    let same : detect_owner_reclassification tdg_migration ns.labels old_ns.labels bypass ≡ false =
      ground arith in
    rw same (
      first_denied-kept_iff bypass (is_some (label_at ns.labels label_key_owner)) ns old_ns
        (label_keys tdg_migration) h)

first_denied-refuses :
    (bypass : BypassCheckResult) (reclassified owned : Bool) (ns old_ns : Labels)
    (keys : List String)
    → refuses (first_denied bypass reclassified owned ns old_ns keys) ≡ true
unfolding first_denied
first_denied-refuses bypass reclassified owned ns old_ns [] = refl
first_denied-refuses bypass reclassified owned ns old_ns (key ∷ keys) =
    if_refuses (key_denied bypass reclassified owned key (label_at old_ns key) (label_at ns key)) _
      _ refl (first_denied-refuses bypass reclassified owned ns old_ns keys)

pub validate_label_immutability-refuses :
    (tdg : Bool) (ns old_ns : Namespace) (bypass : BypassCheckResult)
    → refuses (validate_label_immutability tdg ns old_ns bypass) ≡ true
unfolding validate_label_immutability
validate_label_immutability-refuses tdg ns old_ns bypass =
    first_denied-refuses bypass (detect_owner_reclassification tdg ns.labels old_ns.labels bypass)
      (is_some (label_at ns.labels label_key_owner)) ns.labels old_ns.labels (label_keys tdg)

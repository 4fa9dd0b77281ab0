-- ===== src/Admission/Protection/Laws.antt =====
-- Which namespaces can be deleted, and which updates keep them protected.
use auth_operator.Base.{
  if◌then◌else◌, skip_iff, last_iff, stop_iff, not_false_iff, or_iff, String, Option, none, some,
  Bool, true, false, not, ◌||◌, ◌==◌, eq_iff, contains_iff, ◌≡◌, refl, ◌↔◌, ◌⊎◌, arith, In,
}
use auth_operator.Kube.{Namespace}
use auth_operator.Policy.Labels.{Fallible, ok, failed}
use auth_operator.Admission.Ownership.{
  label_key_owner, label_key_deletion_protection, annotation_key_allow_deletion, legacy_owner_label,
  label_value,
}
use auth_operator.Admission.Protection.{
  AdmissionRequest, Response, permitted, denied, errored, NamespaceValidator, Decoded, objects,
  answered, decoded_one, decoded_two, bad_request, decode_namespaces, hard_protected_namespaces,
  is_hard_protected_namespace, is_deletion_protected, allows_deletion, after_decoding,
  deny_deletion, check_deletion_protection, deny_downgrade, check_protection_downgrade,
}

-- A system namespace, built in or configured.
abbrev pub HardProtected : NamespaceValidator → String → Type 0
HardProtected v name = In name hard_protected_namespaces ⊎ In name v.extra_protected_namespaces

-- Owned by the platform, by the old label while the migration is on, or opted in.
abbrev pub Protected : NamespaceValidator → Namespace → Type 0
Protected v ns =
    (label_value ns.labels label_key_owner ≡ "platform")
    ⊎ ((v.tdg_migration ≡ true)
        × ((label_value ns.labels legacy_owner_label ≡ "platform")
            ⊎ (label_value ns.labels legacy_owner_label ≡ "schiff")))
    ⊎ (label_value ns.labels label_key_deletion_protection ≡ "enabled")

-- It carries the annotation that allows the deletion.
abbrev pub Unlocked : Namespace → Type 0
Unlocked ns = label_value ns.annotations annotation_key_allow_deletion ≡ "true"

pub HardProtected-iff :
    (v : NamespaceValidator) (name : String)
    → (is_hard_protected_namespace name v.extra_protected_namespaces ≡ true) ↔ HardProtected v name
unfolding is_hard_protected_namespace
HardProtected-iff v name = ground (
  arith,
  contains_iff hard_protected_namespaces name,
  contains_iff v.extra_protected_namespaces name,
)

pub Protected-iff :
    (v : NamespaceValidator) (ns : Namespace)
    → (is_deletion_protected ns v.tdg_migration ≡ true) ↔ Protected v ns
unfolding is_deletion_protected
Protected-iff v ns = ground (
  arith,
  eq_iff (label_value ns.labels label_key_owner) "platform",
  eq_iff (label_value ns.labels legacy_owner_label) "platform",
  eq_iff (label_value ns.labels legacy_owner_label) "schiff",
  eq_iff (label_value ns.labels label_key_deletion_protection) "enabled",
)

pub Unlocked-iff : (ns : Namespace) → (allows_deletion ns ≡ true) ↔ Unlocked ns
unfolding allows_deletion
Unlocked-iff ns = eq_iff (label_value ns.annotations annotation_key_allow_deletion) "true"

deny_deletion-eq-none_iff :
    (v : NamespaceValidator) (req : AdmissionRequest) (ns : Namespace)
    → (deny_deletion v req ns ≡ none) ↔ ((¬ Protected v ns) ⊎ Unlocked ns)
deny_deletion-eq-none_iff v req ns =
    skip_iff (not (is_deletion_protected ns v.tdg_migration)) _
      (not_false_iff _ (Protected-iff v ns)) (last_iff (allows_deletion ns) _ (Unlocked-iff ns))

deny_downgrade-eq-none_iff :
    (v : NamespaceValidator) (req : AdmissionRequest) (ns old_ns : Namespace)
    → (deny_downgrade v req ns old_ns ≡ none)
      ↔ (((¬ Protected v old_ns) ⊎ Protected v ns) ⊎ Unlocked ns)
deny_downgrade-eq-none_iff v req ns old_ns =
    skip_iff
      (not (is_deletion_protected old_ns v.tdg_migration)
        || is_deletion_protected ns v.tdg_migration)
      _ (or_iff _ _ (not_false_iff _ (Protected-iff v old_ns)) (Protected-iff v ns))
      (last_iff (allows_deletion ns) _ (Unlocked-iff ns))

after_decoding-eq-none_iff :
    {P : Namespace → Namespace → Type 0} (d : Decoded)
    (go : Namespace → Namespace → Option Response)
    → ((ns old_ns : Namespace) → (go ns old_ns ≡ none) ↔ P ns old_ns)
    → (after_decoding d go ≡ none)
      ↔ ((ns : Namespace) × (old_ns : Namespace) × (d ≡ objects ns old_ns) × P ns old_ns)
after_decoding-eq-none_iff (answered r) go h = (λ e. cc, λ t. (let (ns, old_ns, e, p) = t in cc))
after_decoding-eq-none_iff {P} (objects ns old_ns) go h =
    (λ e. (ns, old_ns, refl, (h ns old_ns).0 e), λ t. (h ns old_ns).1 (same t))
  where
    same :
        ((a : Namespace) × (b : Namespace) × (objects ns old_ns ≡ objects a b) × P a b)
        → P ns old_ns
    same (a, b, e, p) = (let x : ns ≡ a = cc in let y : old_ns ≡ b = cc in rw (x, y) p)

-- The check lets a deletion go on exactly when the name is not that of a system namespace, and the
-- namespace sent can be decoded and is not protected, or carries the annotation that allows it.
pub check_deletion_protection-eq-none_iff :
    (v : NamespaceValidator) (req : AdmissionRequest)
    → (check_deletion_protection v req ≡ none) ↔ (
        (¬ HardProtected v req.name)
        × ((ns : Namespace) × (old_ns : Namespace) × (decode_namespaces v req ≡ objects ns old_ns)
            × ((¬ Protected v ns) ⊎ Unlocked ns)))
unfolding check_deletion_protection
check_deletion_protection-eq-none_iff v req =
    stop_iff (is_hard_protected_namespace req.name v.extra_protected_namespaces) _ _
      (HardProtected-iff v req.name)
      (after_decoding-eq-none_iff (decode_namespaces v req) _
        (λ ns old_ns. deny_deletion-eq-none_iff v req ns))

-- The check lets an update go on exactly when both namespaces can be decoded and the update leaves
-- the protection as it is, adds it, or carries the annotation that allows the deletion.
pub check_protection_downgrade-eq-none_iff :
    (v : NamespaceValidator) (req : AdmissionRequest)
    → (check_protection_downgrade v req ≡ none) ↔ (
        (ns : Namespace) × (old_ns : Namespace) × (decode_namespaces v req ≡ objects ns old_ns)
        × (((¬ Protected v old_ns) ⊎ Protected v ns) ⊎ Unlocked ns))
unfolding check_protection_downgrade
check_protection_downgrade-eq-none_iff v req =
    after_decoding-eq-none_iff (decode_namespaces v req) _
      (λ ns old_ns. deny_downgrade-eq-none_iff v req ns old_ns)

-- The answers that are not a permission.
abbrev pub refuses : Option Response → Bool
refuses none = true
refuses (some permitted) = false
refuses (some (denied text)) = true
refuses (some (errored status text)) = true

after_decoding-refuses :
    (d : Decoded) (go : Namespace → Namespace → Option Response)
    → refuses (after_decoding d (λ ns old_ns. none)) ≡ true
    → ((ns old_ns : Namespace) → refuses (go ns old_ns) ≡ true)
    → refuses (after_decoding d go) ≡ true
after_decoding-refuses (answered r) go d h = d
after_decoding-refuses (objects ns old_ns) go d h = h ns old_ns

one_refuses :
    (f : Fallible Namespace) → refuses (after_decoding (decoded_one f) (λ ns old_ns. none)) ≡ true
one_refuses (ok ns) = refl
one_refuses (failed e) = refl

two_refuses :
    (f g : Fallible Namespace)
    → refuses (after_decoding (decoded_two f g) (λ ns old_ns. none)) ≡ true
two_refuses (ok ns) (ok old_ns) = refl
two_refuses (ok ns) (failed e) = refl
two_refuses (failed e) g = refl

pub if_refuses :
    (b : Bool) (x y : Option Response)
    → refuses x ≡ true
    → refuses y ≡ true
    → refuses (if b then x else y) ≡ true
if_refuses true x y p q = p
if_refuses false x y p q = q

module _ (v : NamespaceValidator) (req : AdmissionRequest) where
  pub check_deletion_protection-refuses :
      req.operation ≡ "DELETE" → refuses (check_deletion_protection v req) ≡ true
  unfolding check_deletion_protection decode_namespaces
  check_deletion_protection-refuses e =
      if_refuses (is_hard_protected_namespace req.name v.extra_protected_namespaces) _ _ refl (
        after_decoding-refuses (decode_namespaces v req) _
          (rw e (by_parts (req.old_object == "") (req.object == "")))
          (λ ns old_ns.
            if_refuses (not (is_deletion_protected ns v.tdg_migration)) _ _ refl
              (if_refuses (allows_deletion ns) _ _ refl refl)))
    where
      by_parts :
          (a b : Bool)
          → refuses (
              after_decoding
                (if not a
                  then decoded_one (v.decode req.old_object)
                  else if not b
                  then decoded_one (v.decode req.object)
                  else answered bad_request)
                (λ ns old_ns. none))
            ≡ true
      by_parts false b = one_refuses (v.decode req.old_object)
      by_parts true false = one_refuses (v.decode req.object)
      by_parts true true = refl

  pub check_protection_downgrade-refuses :
      req.operation ≡ "UPDATE" → refuses (check_protection_downgrade v req) ≡ true
  unfolding check_protection_downgrade decode_namespaces
  check_protection_downgrade-refuses e =
      after_decoding-refuses (decode_namespaces v req) _
        (rw e (two_refuses (v.decode req.object) (v.decode req.old_object)))
        (λ ns old_ns.
          if_refuses
            (not (is_deletion_protected old_ns v.tdg_migration)
              || is_deletion_protected ns v.tdg_migration)
            _ _ refl (if_refuses (allows_deletion ns) _ _ refl refl))

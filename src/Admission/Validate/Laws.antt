-- ===== src/Admission/Validate/Laws.antt =====
-- What the webhook never permits, whoever asks; and the life of a protected namespace.
use auth_operator.Base.{
  String, List, Option, none, some, Bool, true, false, not, ◌&&◌, ◌||◌, [], ◌∷◌, ◌==◌, eq_iff,
  if◌then◌else◌, ◌≡◌, refl, sym, ap, ◌∙◌, ◌⊎◌, inl, inr, arith, All, Any, Bool-cases, contains,
}
use auth_operator.Kube.{Namespace}
use auth_operator.Admission.Bypass.{
  BypassCheckResult, full_bypass, update_bypass, migration_bypass, check_bypass,
}
use auth_operator.Admission.Protection.{
  AdmissionRequest, Response, permitted, denied, errored, NamespaceValidator, Decoded, objects,
  answered, empty_namespace, decode_namespaces, check_deletion_protection,
  check_protection_downgrade,
}
use auth_operator.Admission.Protection.Laws.{
  HardProtected, Protected, Unlocked, refuses, check_deletion_protection-refuses,
  check_protection_downgrade-refuses, check_deletion_protection-eq-none_iff,
  check_protection_downgrade-eq-none_iff,
}
use auth_operator.Admission.Immutability.{label_keys, validate_label_immutability}
use auth_operator.Admission.Immutability.Laws.{
  Keeps, validate_label_immutability-Keeps_iff, validate_label_immutability-refuses,
}
use auth_operator.Admission.Validate.{
  Readers, or_answer, check_update, handle_decoded, on_decoded, after_bypass, protection, bypass_of,
  handle, authorize_via_bind_definitions,
}

or_answer-permitted :
    (o : Option Response) (next : Response)
    → refuses o ≡ true
    → or_answer o next ≡ permitted
    → (o ≡ none) × (next ≡ permitted)
or_answer-permitted none next r h = (refl, h)
or_answer-permitted (some permitted) next r h = cc
or_answer-permitted (some (denied t)) next r h = cc
or_answer-permitted (some (errored s t)) next r h = cc

module _ (v : NamespaceValidator) (readers : Readers) (req : AdmissionRequest) where
  -- What `Handle` does with a namespace behind the protection.
  handle_rest : Response
  handle_rest = after_bypass v readers req (bypass_of v req)

  handle-protection :
      req.kind ≡ "Namespace"
      → refuses (protection v req) ≡ true
      → handle v readers req ≡ permitted
      → (protection v req ≡ none) × (handle_rest ≡ permitted)
  unfolding handle handle_rest
  handle-protection kind r h =
      let test = (eq_iff req.kind "Namespace").1 kind in
      or_answer-permitted (protection v req) handle_rest r (ground arith)

  protection-delete :
      v.deletion_protection ≡ true
      → req.operation ≡ "DELETE"
      → protection v req ≡ check_deletion_protection v req
  unfolding protection
  protection-delete on operation =
      (let t = (eq_iff req.operation "DELETE").1 operation in ground arith)

  protection-update :
      v.deletion_protection ≡ true
      → req.operation ≡ "UPDATE"
      → protection v req ≡ check_protection_downgrade v req
  unfolding protection
  protection-update on operation =
      let t = (eq_iff req.operation "UPDATE").1 operation in
      let f : (req.operation == "DELETE") ≡ false = rw operation refl in ground arith

  -- With the protection on, a deletion that the webhook permits, whoever asks for it, is not that of a
  -- system namespace, and the namespace is not protected, or carries the annotation that allows it.
  pub handle-Unlocked :
      v.deletion_protection ≡ true
      → req.kind ≡ "Namespace"
      → req.operation ≡ "DELETE"
      → handle v readers req ≡ permitted
      → (¬ HardProtected v req.name)
        × ((ns : Namespace) × (old_ns : Namespace) × (decode_namespaces v req ≡ objects ns old_ns)
            × ((¬ Protected v ns) ⊎ Unlocked ns))
  handle-Unlocked on kind operation h =
      let same = protection-delete on operation in
      let (go, rest) =
        handle-protection kind (ap refuses same ∙ check_deletion_protection-refuses v req operation)
          h in
      (check_deletion_protection-eq-none_iff v req).0 (sym same ∙ go)

  handle-downgrade :
      v.deletion_protection ≡ true
      → req.kind ≡ "Namespace"
      → req.operation ≡ "UPDATE"
      → handle v readers req ≡ permitted
      → (ns : Namespace) × (old_ns : Namespace) × (decode_namespaces v req ≡ objects ns old_ns)
        × (((¬ Protected v old_ns) ⊎ Protected v ns) ⊎ Unlocked ns)
  handle-downgrade on kind operation h =
      let same = protection-update on operation in
      let (go, rest) =
        handle-protection kind
          (ap refuses same ∙ check_protection_downgrade-refuses v req operation) h in
      (check_protection_downgrade-eq-none_iff v req).0 (sym same ∙ go)

-- An update of a namespace that the webhook permits.
pub record Updates (v : NamespaceValidator) (readers : Readers) (old new : Namespace) : Type 0 where
  pub req : AdmissionRequest
  pub kind : req.kind ≡ "Namespace"
  pub operation : req.operation ≡ "UPDATE"
  pub sent : decode_namespaces v req ≡ objects new old
  pub admitted : handle v readers req ≡ permitted

-- A deletion of a namespace that the webhook permits.
pub record Deletes (v : NamespaceValidator) (readers : Readers) (ns : Namespace) : Type 0 where
  pub req : AdmissionRequest
  pub kind : req.kind ≡ "Namespace"
  pub operation : req.operation ≡ "DELETE"
  pub sent : decode_namespaces v req ≡ objects ns empty_namespace
  pub admitted : handle v readers req ≡ permitted

-- The states of a namespace behind the first, each by an update, up to the last.
pub data History (v : NamespaceValidator) (readers : Readers)
    : Namespace → List Namespace → Namespace → Type 0 where
  start : (ns : Namespace) → History v readers ns [] ns
  update :
      (ns next last : Namespace) (later : List Namespace)
      → Updates v readers ns next
      → History v readers next later last
      → History v readers ns (next ∷ later) last

first_of : Decoded → Namespace
first_of (objects ns old_ns) = ns
first_of (answered r) = empty_namespace

second_of : Decoded → Namespace
second_of (objects ns old_ns) = old_ns
second_of (answered r) = empty_namespace

module _ (v : NamespaceValidator) (readers : Readers) (on : v.deletion_protection ≡ true) where
  deleted-Unlocked : (ns : Namespace) → Deletes v readers ns → (¬ Protected v ns) ⊎ Unlocked ns
  unfolding first_of
  deleted-Unlocked ns d =
      let (soft, (other, old, e, free)) =
        handle-Unlocked v readers d.req on d.kind d.operation d.admitted in
      let same : other ≡ ns = ap first_of (sym e ∙ d.sent) in rw (← same) free

  updated-Protected :
      (ns next : Namespace)
      → Updates v readers ns next
      → ((¬ Protected v ns) ⊎ Protected v next) ⊎ Unlocked next
  unfolding first_of second_of
  updated-Protected ns next u =
      let (other, old, e, kept) =
        handle-downgrade v readers u.req on u.kind u.operation u.admitted in
      let same : other ≡ next = ap first_of (sym e ∙ u.sent) in
      let same' : old ≡ ns = ap second_of (sym e ∙ u.sent) in rw (← same, ← same') kept

  -- With the protection on, a protected namespace is deleted, after any updates that the webhook
  -- permits, whoever asks for them, only if in one of its states it carried the annotation that allows
  -- the deletion.
  pub History-Unlocked :
      (ns last : Namespace) (later : List Namespace)
      → Protected v ns
      → History v readers ns later last
      → Deletes v readers last
      → Any Unlocked (ns ∷ later)
  History-Unlocked _ _ _ held (start ns) d = elim (deleted-Unlocked ns d) [
    | inl free ↦ absurd (free held)
    | inr unlocked ↦ inl unlocked
  ]
  History-Unlocked _ _ _ held (update ns next last later u h) d =
      elim (updated-Protected ns next u) [
        | inl kept ↦ elim kept [
          | inl free ↦ absurd (free held)
          | inr still ↦ inr (History-Unlocked next last later still h d)
        ]
        | inr unlocked ↦ inr (inl unlocked)
      ]

-- A principal that skips the checks of labels may change the protected ones.
record Scoped (b : BypassCheckResult) : Type 0 where
  pub wide : (not b.skip_update_label_checks || b.allow_protected_label_changes) ≡ true

if_Scoped : (b : Bool) (x y : BypassCheckResult) → Scoped x → Scoped y → Scoped (if b then x else y)
if_Scoped true x y p q = p
if_Scoped false x y p q = q

full_bypass-Scoped : (reason : String) → Scoped (full_bypass reason)
full_bypass-Scoped reason = record { wide = refl }

update_bypass-Scoped : (allow : Bool) (reason : String) → Scoped (update_bypass allow reason)
update_bypass-Scoped allow reason = record { wide = refl }

migration_bypass-Scoped :
    (username operation namespace : String) → Scoped (migration_bypass username operation namespace)
migration_bypass-Scoped username operation namespace =
    if_Scoped (username == "system:serviceaccount:flux-system:helm-controller") _ _
      (update_bypass-Scoped true _)
      (if_Scoped (username == "system:serviceaccount:flux-system:kustomize-controller") _ _
        (update_bypass-Scoped true _)
        (if_Scoped (username == "system:serviceaccount:schiff-tenant:m2m-sa") _ _
          (update_bypass-Scoped true _)
          (if_Scoped (username == "system:serviceaccount:schiff-system:m2m-sa") _ _
            (update_bypass-Scoped true _)
            (if_Scoped
              (username == "system:serviceaccount:trident-system:trident-operator"
                && (operation == "UPDATE" && namespace == "trident-system"))
              _ _ (update_bypass-Scoped true _) (record { wide = refl })))))

check_bypass-Scoped :
    (username : String) (groups : List String) (operation namespace : String) (tdg capi : Bool)
    → Scoped (check_bypass username groups operation namespace tdg capi)
unfolding check_bypass
check_bypass-Scoped username groups operation namespace tdg capi =
    if_Scoped (username == "kubernetes-admin") _ _ (full_bypass-Scoped _) (
      if_Scoped (contains groups "system:masters") _ _ (full_bypass-Scoped _) (
        if_Scoped
          (username == "system:serviceaccount:t-caas-storage:trident-operator"
            && (operation == "UPDATE" && namespace == "t-caas-storage"))
          _ _ (update_bypass-Scoped false _)
          (if_Scoped
            (capi
              && (username == "system:serviceaccount:capi-operator-system:capi-operator-manager"
                  && operation == "UPDATE"))
            _ _ (update_bypass-Scoped false _)
            (if_Scoped tdg _ _ (migration_bypass-Scoped username operation namespace)
              (record { wide = refl })))))

module _ (v : NamespaceValidator) (readers : Readers) (req : AdmissionRequest) where
  check_update-permitted :
      (ns old_ns : Namespace) (next : Response)
      → (bypass_of v req).allow_protected_label_changes ≡ false
      → check_update v (bypass_of v req) ns old_ns next ≡ permitted
      → All (Keeps ns old_ns) (label_keys v.tdg_migration)
  unfolding check_update
  check_update-permitted ns old_ns next no_changes h =
      let (kept, rest) =
        or_answer-permitted
          (validate_label_immutability v.tdg_migration ns old_ns (bypass_of v req)) _
          (validate_label_immutability-refuses v.tdg_migration ns old_ns (bypass_of v req)) h in
      (validate_label_immutability-Keeps_iff v.tdg_migration ns old_ns (bypass_of v req)
          no_changes).0
        kept

  handle_decoded-permitted :
      (ns old_ns : Namespace)
      → req.operation ≡ "UPDATE"
      → (bypass_of v req).allow_protected_label_changes ≡ false
      → handle_decoded v readers req (bypass_of v req) ns old_ns ≡ permitted
      → All (Keeps ns old_ns) (label_keys v.tdg_migration)
  unfolding handle_decoded
  handle_decoded-permitted ns old_ns operation no_changes h =
      let t = (eq_iff req.operation "UPDATE").1 operation in
      let wide =
        (check_bypass-Scoped req.username req.groups req.operation req.name v.tdg_migration
          (not v.disable_capi_operator_update_bypass)).wide in
      let checks : (bypass_of v req).skip_update_label_checks ≡ false = ground arith in
      let next =
        if (bypass_of v req).should_bypass
        then permitted
        else authorize_via_bind_definitions readers req
            (if req.operation == "UPDATE" then old_ns else ns) in
      let same : handle_decoded v readers req (bypass_of v req) ns old_ns
          ≡ check_update v (bypass_of v req) ns old_ns next =
        ground arith in
      check_update-permitted ns old_ns next no_changes (sym same ∙ h)

  protection-refuses : req.operation ≡ "UPDATE" → refuses (protection v req) ≡ true
  unfolding protection
  protection-refuses operation = elim (Bool-cases v.deletion_protection) [
    | inl on ↦
        ap refuses (protection-update v readers req on operation)
        ∙ check_protection_downgrade-refuses v req operation
    | inr off ↦ ground arith
  ]

  -- Where the webhook permits an update by a principal that may not change protected labels, each of
  -- the controlled labels has the same value before and after, or is in neither.
  pub handle-Keeps :
      (ns old_ns : Namespace)
      → req.kind ≡ "Namespace"
      → req.operation ≡ "UPDATE"
      → decode_namespaces v req ≡ objects ns old_ns
      → (bypass_of v req).allow_protected_label_changes ≡ false
      → handle v readers req ≡ permitted
      → All (Keeps ns old_ns) (label_keys v.tdg_migration)
  unfolding handle_rest
  handle-Keeps ns old_ns kind operation sent no_changes h =
      let (go, rest) = handle-protection v readers req kind (protection-refuses operation) h in
      let t = (eq_iff req.operation "UPDATE").1 operation in
      let same : handle_rest v readers req
          ≡ on_decoded v readers req (bypass_of v req) (decode_namespaces v req) =
        ground arith in
      handle_decoded-permitted ns old_ns operation no_changes
        (ap (λ d. on_decoded v readers req (bypass_of v req) d) (sym sent) ∙ (sym same ∙ rest))

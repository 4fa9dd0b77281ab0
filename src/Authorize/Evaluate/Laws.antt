-- ===== src/Authorize/Evaluate/Laws.antt =====
-- Which authorizer decides, and how.
use auth_operator.Base.{
  ℕ, ◌+◌, String, List, Option, none, some, Bool, true, false, [], ◌∷◌, eq_iff, is_some, ◌≡◌, refl,
  ◌↔◌, ◌⊎◌, inl, inr, arith, Any, Bool-cases, ap,
}
use auth_operator.Kube.{
  LabelSelector, ResourceAttributes, NonResourceAttributes, SubjectAccessReview,
}
use auth_operator.Policy.Labels.{Fallible, ok, failed}
use auth_operator.Authorize.Rules.{
  index_from, resource_rule_index, non_resource_rule_matches, non_resource_rule_index,
}
use auth_operator.Authorize.Rules.Laws.{
  RuleCovers, resource_rule_matches_iff, IsImpersonation, is_impersonation_verb_iff,
}
use auth_operator.Authorize.Principals.Laws.{PrincipalMatches, principal_matches_iff}
use auth_operator.Authorize.Evaluate.{
  WebhookAuthorizer, EvaluationResult, effective_impersonation_verb_policy, deny_index,
  matches_impersonation_deny, resource_match, non_resource_match, with_field,
  match_request_rule_with_field, judge_by, judge, Outcome, decided, unavailable, undecided,
  first_result, on_match, applies, evaluate_items,
}

abbrev pub ResourceCovers : WebhookAuthorizer → String → Option ResourceAttributes → Type 0
ResourceCovers a verb_policy none = ⊥
ResourceCovers a verb_policy (some attr) = Any (RuleCovers attr verb_policy) a.spec.resource_rules

abbrev pub NonResourceCovers : WebhookAuthorizer → Option NonResourceAttributes → Type 0
NonResourceCovers a none = ⊥
NonResourceCovers a (some attr) =
    Any (λ r. non_resource_rule_matches attr r ≡ true) a.spec.non_resource_rules

-- A rule of the authorizer covers the request.
abbrev pub Covers : SubjectAccessReview → WebhookAuthorizer → Type 0
Covers sar a =
    ResourceCovers a (effective_impersonation_verb_policy a) sar.resource_attributes
    ⊎ NonResourceCovers a sar.non_resource_attributes

abbrev pub CoversImpersonation : WebhookAuthorizer → Option ResourceAttributes → Type 0
CoversImpersonation a none = ⊥
CoversImpersonation a (some attr) = IsImpersonation attr.verb × ResourceCovers a "Deny" (some attr)

-- The authorizer denies impersonation, the request is one, and a resource rule covers it.
abbrev pub Kills : SubjectAccessReview → WebhookAuthorizer → Type 0
Kills sar a =
    (effective_impersonation_verb_policy a ≡ "Deny") × CoversImpersonation a sar.resource_attributes

abbrev pub Denies : SubjectAccessReview → WebhookAuthorizer → Type 0
Denies sar a =
    Kills sar a ⊎ (Any (λ p. PrincipalMatches p sar) a.spec.denied_principals × Covers sar a)

abbrev pub Grants : SubjectAccessReview → WebhookAuthorizer → Type 0
Grants sar a =
    (¬ Denies sar a) × (Any (λ p. PrincipalMatches p sar) a.spec.allowed_principals × Covers sar a)

module _ (nm : String → LabelSelector → Fallible Bool) (sar : SubjectAccessReview) where
  -- The authorizer's namespaces leave the request out, or it neither denies nor grants it.
  abbrev pub Passes : WebhookAuthorizer → Type 0
  Passes a =
      (applies nm sar a ≡ ok false)
      ⊎ ((applies nm sar a ≡ ok true) × ((¬ Denies sar a) × (¬ Grants sar a)))

  -- Authorizers that pass, and behind them one that applies and of which `P` holds.
  abbrev pub FirstTo : (WebhookAuthorizer → Type 0) → List WebhookAuthorizer → Type 0
  FirstTo P [] = ⊥
  FirstTo P (a ∷ items) = ((applies nm sar a ≡ ok true) × P a) ⊎ (Passes a × FirstTo P items)

-- Whether the loop allows or denies, if it decides.
abbrev pub verdict : Outcome → Option Bool
verdict (decided r) = some r.allowed
verdict (unavailable r e) = none
verdict (undecided e s) = none

-- The loop ends with such a result.
abbrev pub Gives : Bool → String → Outcome → Type 0
Gives allowed decision (decided r) = (r.allowed ≡ allowed) × (r.decision ≡ decision)
Gives allowed decision (unavailable r e) = ⊥
Gives allowed decision (undecided e s) = ⊥

abbrev opinion : Option EvaluationResult → Option Bool
opinion none = none
opinion (some r) = some r.allowed

some_index_iff {ℓ} :
    {A : Type ℓ} {P : A → Type 0} (test : A → Bool)
    → ((x : A) → (test x ≡ true) ↔ P x)
    → (k : ℕ) (xs : List A) → (is_some (index_from k test xs) ≡ true) ↔ Any P xs
some_index_iff test h k [] = ground arith
some_index_iff test h k (x ∷ xs) = ground (arith, h x, some_index_iff test h (k + 1) xs)

module _ (a : WebhookAuthorizer) where
  resource_match_iff :
      (o : Option ResourceAttributes)
      → (is_some (resource_match a o) ≡ true)
        ↔ ResourceCovers a (effective_impersonation_verb_policy a) o
  unfolding resource_rule_index
  resource_match_iff none = ground arith
  resource_match_iff (some attr) =
      some_index_iff _ (resource_rule_matches_iff attr (effective_impersonation_verb_policy a)) 0
        a.spec.resource_rules

  non_resource_match_iff :
      (o : Option NonResourceAttributes)
      → (is_some (non_resource_match a o) ≡ true) ↔ NonResourceCovers a o
  unfolding non_resource_rule_index
  non_resource_match_iff none = ground arith
  non_resource_match_iff (some attr) =
      some_index_iff _ (λ r. (λ e. e, λ e. e)) 0 a.spec.non_resource_rules

  deny_index_iff :
      (o : Option ResourceAttributes) → (is_some (deny_index a o) ≡ true) ↔ CoversImpersonation a o
  unfolding resource_rule_index
  deny_index_iff none = ground arith
  deny_index_iff (some attr) = ground (
    arith,
    is_impersonation_verb_iff attr.verb,
    some_index_iff _ (resource_rule_matches_iff attr "Deny") 0 a.spec.resource_rules,
  )

with_field_iff :
    {P Q : Type 0} (x y : Option ℕ)
    → (is_some x ≡ true) ↔ P
    → (is_some y ≡ true) ↔ Q
    → (is_some (with_field x y) ≡ true) ↔ (P ⊎ Q)
with_field_iff none none p q = ground (arith, p, q)
with_field_iff none (some i) p q = ground (arith, p, q)
with_field_iff (some i) y p q = ground (arith, p, q)

judge_by-Denies :
    {K D A R : Type 0} (name : String) (e s : ℕ) (kill : Option ℕ) (d a : Bool)
    (rule : Option (ℕ × String))
    → (is_some kill ≡ true) ↔ K
    → (d ≡ true) ↔ D
    → (a ≡ true) ↔ A
    → (is_some rule ≡ true) ↔ R
    → (opinion (judge_by name e s kill d a rule) ≡ some false) ↔ (K ⊎ (D × R))
unfolding judge_by
judge_by-Denies name e s (some i) d a rule hk hd ha hr = ground (arith, hk, hd, ha, hr)
judge_by-Denies name e s none d a none hk hd ha hr = ground (arith, hk, hd, ha, hr)
judge_by-Denies name e s none d a (some r) hk hd ha hr = ground (arith, hk, hd, ha, hr)

judge_by-Grants :
    {K D A R : Type 0} (name : String) (e s : ℕ) (kill : Option ℕ) (d a : Bool)
    (rule : Option (ℕ × String))
    → (is_some kill ≡ true) ↔ K
    → (d ≡ true) ↔ D
    → (a ≡ true) ↔ A
    → (is_some rule ≡ true) ↔ R
    → (opinion (judge_by name e s kill d a rule) ≡ some true) ↔ ((¬ (K ⊎ (D × R))) × (A × R))
unfolding judge_by
judge_by-Grants name e s (some i) d a rule hk hd ha hr = ground (arith, hk, hd, ha, hr)
judge_by-Grants name e s none d a none hk hd ha hr = ground (arith, hk, hd, ha, hr)
judge_by-Grants name e s none d a (some r) hk hd ha hr = ground (arith, hk, hd, ha, hr)

opinion-eq-none_iff :
    {D G : Type 0} (o : Option EvaluationResult)
    → (opinion o ≡ some false) ↔ D
    → (opinion o ≡ some true) ↔ G
    → (opinion o ≡ none) ↔ ((¬ D) × (¬ G))
opinion-eq-none_iff none d g = (
  λ _. (
    λ x. (let e : opinion none ≡ some false = d.1 x in cc),
    λ y. (let e : opinion none ≡ some true = g.1 y in cc),
  ),
  λ _. refl,
)
opinion-eq-none_iff (some r) d g = elim (Bool-cases r.allowed) [
  | inl h ↦ (λ e. cc, λ t. absurd (t.1 (g.0 (ap some h))))
  | inr h ↦ (λ e. cc, λ t. absurd (t.0 (d.0 (ap some h))))
]

module _ (sar : SubjectAccessReview) (a : WebhookAuthorizer) where
  Kills-iff : (is_some (matches_impersonation_deny a sar) ≡ true) ↔ Kills sar a
  unfolding matches_impersonation_deny
  Kills-iff = ground (
    arith,
    eq_iff (effective_impersonation_verb_policy a) "Deny",
    deny_index_iff a sar.resource_attributes,
  )

  pub Covers-iff : (is_some (match_request_rule_with_field a sar) ≡ true) ↔ Covers sar a
  unfolding match_request_rule_with_field
  Covers-iff =
      with_field_iff _ _ (resource_match_iff a sar.resource_attributes)
        (non_resource_match_iff a sar.non_resource_attributes)

  judge-Denies : (e s : ℕ) → (opinion (judge sar a e s) ≡ some false) ↔ Denies sar a
  unfolding judge
  judge-Denies e s =
      judge_by-Denies a.name e s _ _ _ _ Kills-iff
        (principal_matches_iff sar a.spec.denied_principals)
        (principal_matches_iff sar a.spec.allowed_principals) Covers-iff

  judge-Grants : (e s : ℕ) → (opinion (judge sar a e s) ≡ some true) ↔ Grants sar a
  unfolding judge
  judge-Grants e s =
      judge_by-Grants a.name e s _ _ _ _ Kills-iff
        (principal_matches_iff sar a.spec.denied_principals)
        (principal_matches_iff sar a.spec.allowed_principals) Covers-iff

  judge-silent :
      (e s : ℕ) → (opinion (judge sar a e s) ≡ none) ↔ ((¬ Denies sar a) × (¬ Grants sar a))
  judge-silent e s = opinion-eq-none_iff (judge sar a e s) (judge-Denies e s) (judge-Grants e s)

-- One turn of the loop.
turn_iff :
    {Q S R : Type 0} (v : Bool) (name : String) (e s : ℕ) (scope : Fallible Bool)
    (o : Option EvaluationResult) (skip later : Outcome)
    → (opinion o ≡ some v) ↔ Q
    → (opinion o ≡ none) ↔ S
    → (verdict skip ≡ some v) ↔ R
    → (verdict later ≡ some v) ↔ R
    → (verdict (on_match name e s scope skip (first_result o later)) ≡ some v)
      ↔ (((scope ≡ ok true) × Q) ⊎ (((scope ≡ ok false) ⊎ ((scope ≡ ok true) × S)) × R))
turn_iff v name e s (failed m) o skip later q n r r' = (
  λ h. cc,
  λ h. elim h [
    | inl t ↦ (let x : failed m ≡ ok true = t.0 in cc)
    | inr t ↦ elim t.0 [
      | inl x ↦ (let y : failed m ≡ ok false = x in cc)
      | inr u ↦ (let x : failed m ≡ ok true = u.0 in cc)
    ]
  ],
)
turn_iff v name e s (ok false) o skip later q n r r' = (
  λ h. inr (inl refl, r.0 h),
  λ h. elim h [ inl t ↦ (let x : ok false ≡ ok true = t.0 in cc) | inr t ↦ r.1 t.1 ],
)
turn_iff v name e s (ok true) none skip later q n r r' = (
  λ h. inr (inr (refl, n.0 refl), r'.0 h),
  λ h. elim h [ inl t ↦ (let x : opinion none ≡ some v = q.1 t.1 in cc) | inr t ↦ r'.1 t.1 ],
)
turn_iff v name e s (ok true) (some d) skip later q n r r' = (
  λ h. inl (refl, q.0 h),
  λ h. elim h [
    | inl t ↦ q.1 t.1
    | inr t ↦ elim t.0 [
      | inl x ↦ (let y : ok true ≡ ok false = x in cc)
      | inr u ↦ (let y : opinion (some d) ≡ none = n.1 u.1 in cc)
    ]
  ],
)

pub evaluate_items-refuses_iff :
    (nm : String → LabelSelector → Fallible Bool) (sar : SubjectAccessReview)
    (items : List WebhookAuthorizer) (e s : ℕ)
    → (verdict (evaluate_items nm sar items e s) ≡ some false) ↔ FirstTo nm sar (Denies sar) items
unfolding evaluate_items
evaluate_items-refuses_iff nm sar [] e s = (λ h. cc, λ z. absurd z)
evaluate_items-refuses_iff nm sar (a ∷ items) e s =
    turn_iff false a.name e s (applies nm sar a) (judge sar a (e + 1) s) _ _
      (judge-Denies sar a (e + 1) s) (judge-silent sar a (e + 1) s)
      (evaluate_items-refuses_iff nm sar items e (s + 1))
      (evaluate_items-refuses_iff nm sar items (e + 1) s)

judge_by-denied :
    (name : String) (e s : ℕ) (kill : Option ℕ) (d a : Bool) (rule : Option (ℕ × String))
    {r : EvaluationResult}
    → judge_by name e s kill d a rule ≡ some r
    → r.allowed ≡ false
    → r.decision ≡ "denied"
unfolding judge_by
judge_by-denied name e s (some i) d a rule h refused = cc
judge_by-denied name e s none d a none h refused = cc
judge_by-denied name e s none true a (some (i, f)) h refused = cc
judge_by-denied name e s none false true (some (i, f)) h refused = cc
judge_by-denied name e s none false false (some (i, f)) h refused = cc

turn-Gives :
    (name : String) (e s : ℕ) (scope : Fallible Bool) (o : Option EvaluationResult)
    (skip later : Outcome)
    → ((r : EvaluationResult) → o ≡ some r → r.allowed ≡ false → r.decision ≡ "denied")
    → (verdict skip ≡ some false → Gives false "denied" skip)
    → (verdict later ≡ some false → Gives false "denied" later)
    → verdict (on_match name e s scope skip (first_result o later)) ≡ some false
    → Gives false "denied" (on_match name e s scope skip (first_result o later))
turn-Gives name e s (failed m) o skip later denied skips goes h = cc
turn-Gives name e s (ok false) o skip later denied skips goes h = skips h
turn-Gives name e s (ok true) none skip later denied skips goes h = goes h
turn-Gives name e s (ok true) (some r) skip later denied skips goes h =
    let refused : r.allowed ≡ false = cc in (refused, denied r refl refused)

evaluate_items-Gives :
    (nm : String → LabelSelector → Fallible Bool) (sar : SubjectAccessReview)
    (items : List WebhookAuthorizer) (e s : ℕ)
    → verdict (evaluate_items nm sar items e s) ≡ some false
    → Gives false "denied" (evaluate_items nm sar items e s)
unfolding evaluate_items judge
evaluate_items-Gives nm sar [] e s h = cc
evaluate_items-Gives nm sar (a ∷ items) e s h =
    turn-Gives a.name e s (applies nm sar a) (judge sar a (e + 1) s) _ _
      (λ r j. judge_by-denied a.name (e + 1) s _ _ _ _ j)
      (evaluate_items-Gives nm sar items e (s + 1)) (evaluate_items-Gives nm sar items (e + 1) s) h

Gives-verdict : (o : Outcome) → Gives false "denied" o → verdict o ≡ some false
Gives-verdict (decided r) (refused, decision) = ap some refused
Gives-verdict (unavailable r e) z = absurd z
Gives-verdict (undecided e s) z = absurd z

-- The loop of `evaluateSAR` ends with a result that does not allow exactly when the first authorizer
-- that does not pass denies, by its rule on impersonation, whoever asks, or for a denied principal and
-- a covering rule; and exactly then with one that does not allow and whose decision is "denied".
pub evaluate_items-Denies_iff :
    (nm : String → LabelSelector → Fallible Bool) (sar : SubjectAccessReview)
    (items : List WebhookAuthorizer) (e s : ℕ)
    → ((verdict (evaluate_items nm sar items e s) ≡ some false) ↔ FirstTo nm sar (Denies sar) items)
      × (Gives false "denied" (evaluate_items nm sar items e s) ↔ FirstTo nm sar (Denies sar) items)
evaluate_items-Denies_iff nm sar items e s =
    let refuses = evaluate_items-refuses_iff nm sar items e s in
    (
      refuses,
      (
        λ g. refuses.0 (Gives-verdict (evaluate_items nm sar items e s) g),
        λ f. evaluate_items-Gives nm sar items e s (refuses.1 f),
      ),
    )

-- The loop of `evaluateSAR` allows exactly when the first authorizer that does not pass grants the
-- request: it does not deny, and an allowed principal and a rule match.
pub evaluate_items-Grants_iff :
    (nm : String → LabelSelector → Fallible Bool) (sar : SubjectAccessReview)
    (items : List WebhookAuthorizer) (e s : ℕ)
    → (verdict (evaluate_items nm sar items e s) ≡ some true) ↔ FirstTo nm sar (Grants sar) items
unfolding evaluate_items
evaluate_items-Grants_iff nm sar [] e s = (λ h. cc, λ z. absurd z)
evaluate_items-Grants_iff nm sar (a ∷ items) e s =
    turn_iff true a.name e s (applies nm sar a) (judge sar a (e + 1) s) _ _
      (judge-Grants sar a (e + 1) s) (judge-silent sar a (e + 1) s)
      (evaluate_items-Grants_iff nm sar items e (s + 1))
      (evaluate_items-Grants_iff nm sar items (e + 1) s)

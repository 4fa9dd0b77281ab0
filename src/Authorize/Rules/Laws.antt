-- ===== src/Authorize/Rules/Laws.antt =====
-- What a rule covers, and which rule is found.
use Prim.Native.String
use auth_operator.Base.{
  ℕ, ◌+◌, String, List, some, Bool, true, not, [], ◌∷◌, ◌==◌, eq_iff, any_iff, contains_iff,
  if◌then◌else◌, ◌≡◌, ◌≢◌, refl, ◌↔◌, ◌⊎◌, inl, inr, Any, In, and_iff, or_iff, empty_iff, arith,
  Bool-cases, eq-false_iff,
}
use auth_operator.Kube.{ResourceRule, ResourceAttributes}
use auth_operator.Api.Impersonation.{
  is_impersonation_verb, impersonate_verb_prefix, impersonate_on_verb_prefix,
}
use auth_operator.Policy.Matcher.Glob.{StartsWith}
use auth_operator.Policy.Matcher.Names.{has_prefix_iff}
use auth_operator.Authorize.Rules.{
  matches_exact_or_all, matches_verb, matches_resource_rule, index_from, resource_key,
  resource_rule_matches, resource_rule_index,
}

-- The value is listed, or "*" is.
abbrev pub Listed : List String → String → Type 0
Listed patterns value = Any (λ p. (p ≡ "*") ⊎ (p ≡ value)) patterns

abbrev pub IsImpersonation : String → Type 0
IsImpersonation verb =
    StartsWith impersonate_verb_prefix verb ⊎ StartsWith impersonate_on_verb_prefix verb

-- A verb of impersonation needs to be listed itself, unless the policy of the authorizer lets "*"
-- stand for it; any other verb may be covered by "*".
abbrev pub VerbCovered : List String → String → String → Type 0
VerbCovered patterns verb verb_policy =
    ((¬ IsImpersonation verb) × Listed patterns verb)
    ⊎ (IsImpersonation verb
        × ((((verb_policy ≡ "AllowWildcard") ⊎ (verb_policy ≡ "Deny")) × Listed patterns verb)
            ⊎ ((¬ ((verb_policy ≡ "AllowWildcard") ⊎ (verb_policy ≡ "Deny"))) × In verb patterns)))

-- The resource is listed with its subresource, or the subresource of every resource is.
abbrev pub ResourceCovered : List String → ResourceAttributes → Type 0
ResourceCovered patterns attr =
    Any
      (λ p.
        ((p ≡ "*") ⊎ (p ≡ resource_key attr))
        ⊎ ((attr.subresource ≢ "") × (p ≡ String.◌++◌ "*/" attr.subresource)))
      patterns

abbrev pub RuleCovers : ResourceAttributes → String → ResourceRule → Type 0
RuleCovers attr verb_policy rule =
    VerbCovered rule.verbs attr.verb verb_policy
    × (Listed rule.api_groups attr.group
        × (ResourceCovered rule.resources attr
            × ((rule.resource_names ≡ []) ⊎ Listed rule.resource_names attr.name)))

-- `P` holds of the element at the index and of none before it.
abbrev pub FirstAt {ℓ} : {A : Type ℓ} → (A → Type 0) → List A → ℕ → Type 0
FirstAt P [] i = ⊥
FirstAt P (x ∷ xs) i = (P x × (i ≡ 0)) ⊎ ((¬ P x) × ((j : ℕ) × ((i ≡ j + 1) × FirstAt P xs j)))

pub matches_exact_or_all_iff :
    (patterns : List String) (value : String)
    → (matches_exact_or_all patterns value ≡ true) ↔ Listed patterns value
unfolding matches_exact_or_all
matches_exact_or_all_iff patterns value =
    any_iff _ (λ p. or_iff _ _ (eq_iff p "*") (eq_iff p value)) patterns

pub is_impersonation_verb_iff :
    (verb : String) → (is_impersonation_verb verb ≡ true) ↔ IsImpersonation verb
unfolding is_impersonation_verb
is_impersonation_verb_iff verb =
    or_iff _ _ (has_prefix_iff verb impersonate_verb_prefix)
      (has_prefix_iff verb impersonate_on_verb_prefix)

-- The two tests of `matchesVerb`.
by_verb_kind :
    {I W L M : Type 0} (imp wild listed literal : Bool)
    → (imp ≡ true) ↔ I
    → (wild ≡ true) ↔ W
    → (listed ≡ true) ↔ L
    → (literal ≡ true) ↔ M
    → ((if not imp then listed else if wild then listed else literal) ≡ true)
      ↔ (((¬ I) × L) ⊎ (I × ((W × L) ⊎ ((¬ W) × M))))
by_verb_kind imp wild listed literal i w l m =
    ground (arith, i, w, l, m, eq-false_iff imp i, eq-false_iff wild w)

-- `matchesVerb` holds exactly when the verb is covered: a verb of impersonation by itself, or by
-- "*" where the policy of the authorizer says so.
pub matches_verb_iff :
    (patterns : List String) (verb verb_policy : String)
    → (matches_verb patterns verb verb_policy ≡ true) ↔ VerbCovered patterns verb verb_policy
unfolding matches_verb
matches_verb_iff patterns verb verb_policy =
    by_verb_kind _ _ _ _ (is_impersonation_verb_iff verb)
      (or_iff _ _ (eq_iff verb_policy "AllowWildcard") (eq_iff verb_policy "Deny"))
      (matches_exact_or_all_iff patterns verb) (contains_iff patterns verb)

not_empty_iff : (s : String) → (not (s == "") ≡ true) ↔ (s ≢ "")
not_empty_iff s = ground (arith, eq_iff s "")

pub resource_rule_matches_iff :
    (attr : ResourceAttributes) (verb_policy : String) (rule : ResourceRule)
    → (resource_rule_matches attr verb_policy rule ≡ true) ↔ RuleCovers attr verb_policy rule
unfolding resource_rule_matches matches_resource_rule
resource_rule_matches_iff attr verb_policy rule =
    and_iff _ _ (matches_verb_iff rule.verbs attr.verb verb_policy) (
      and_iff _ _ (matches_exact_or_all_iff rule.api_groups attr.group) (
        and_iff _ _
          (any_iff _
            (λ p.
              or_iff _ _ (or_iff _ _ (eq_iff p "*") (eq_iff p (resource_key attr)))
                (and_iff _ _ (not_empty_iff attr.subresource) (eq_iff p _)))
            rule.resources)
          (or_iff _ _ (empty_iff rule.resource_names)
            (matches_exact_or_all_iff rule.resource_names attr.name))))

module _ {ℓ} {A : Type ℓ} {P : A → Type 0} (test : A → Bool)
    (h : (x : A) → (test x ≡ true) ↔ P x) where
  index_from_iff :
      (k : ℕ) (xs : List A) (i : ℕ)
      → (index_from k test xs ≡ some i) ↔ ((j : ℕ) × ((i ≡ k + j) × FirstAt P xs j))
  index_from_iff k [] i = (λ e. cc, λ (j, (e, none_found)). absurd none_found)
  index_from_iff k (x ∷ xs) i =
      let (f, g) = index_from_iff (k + 1) xs i in
      elim (Bool-cases (test x)) [
        | inl hit ↦
            let px = (h x).0 hit in
            rw hit (
              λ e. (0, (ground arith, inl (px, refl))),
              λ (j, (ij, d)). elim d [ inl (p, z) ↦ ground arith | inr (np, _) ↦ absurd (np px) ],
            )
        | inr miss ↦
            let np = (eq-false_iff _ (h x)).0 miss in
            rw miss (
              λ e.
                  let (j, (ij, found)) = f e in
                  (j + 1, (ground arith, inr (np, (j, (refl, found))))),
              λ (j, (ij, d)). elim d [
                | inl (p, z) ↦ absurd (np p)
                | inr (_, (before, (next, found))) ↦ g (before, (ground arith, found))
              ],
            )
      ]

-- `resourceRuleIndex` gives the index of the first rule that covers the request, and -1 only if
-- there is none.
pub resource_rule_index-eq-some_iff :
    (rules : List ResourceRule) (attr : ResourceAttributes) (verb_policy : String) (i : ℕ)
    → (resource_rule_index rules attr verb_policy ≡ some i)
      ↔ FirstAt (RuleCovers attr verb_policy) rules i
unfolding resource_rule_index
resource_rule_index-eq-some_iff rules attr verb_policy i =
    let (f, g) = index_from_iff _ (resource_rule_matches_iff attr verb_policy) 0 rules i in
    (
      λ e. let (j, (ij, found)) = f e in (let same : i ≡ j = ground arith in rw same found),
      λ found. g (i, (ground arith, found)),
    )

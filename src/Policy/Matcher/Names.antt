-- ===== src/Policy/Matcher/Names.antt =====
-- What the tests over lists of patterns, prefixes and suffixes decide.
use Prim.Native.String.{◌++◌}
use auth_operator.Base.{
  String, ◌≡◌, ◌≢◌, arith, cut_prefix, cut_suffix, Option-cases, inl, inr, ◌⊎◌, eq_iff, ◌↔◌,
  has_prefix, has_suffix, true, false, List, All, Any, any_iff, any-eq-false_iff, or_iff, cut,
}
use auth_operator.Policy.Matcher.{
  matches_any_wildcard, contains_string_or_wildcard, matches_api_group, contains_text,
  matches_resource_name, api_group_restriction_covers, has_any_prefix, has_any_suffix,
}
use auth_operator.Policy.Matcher.Glob.{Glob, StartsWith, EndsWith}
use auth_operator.Policy.Matcher.Greedy.{
  cut_prefix-eq-some, cut_prefix_eq, cut_suffix-eq-some, cut_suffix_eq, cut-eq-some, cut_leftmost,
}
use auth_operator.Policy.Matcher.Laws.{matches_wildcard_iff}

pub has_prefix_iff : (s p : String) → (has_prefix s p ≡ true) ↔ StartsWith p s
unfolding has_prefix
has_prefix_iff s p = (
  λ e. elim (Option-cases (cut_prefix s p)) [
    | inl absent ↦ ground arith
    | inr (r, found) ↦ (r, cut_prefix-eq-some s p found)
  ],
  λ (r, e). rw (cut_prefix_eq s p r e),
)

pub has_suffix_iff : (s t : String) → (has_suffix s t ≡ true) ↔ EndsWith t s
unfolding has_suffix
has_suffix_iff s t = (
  λ e. elim (Option-cases (cut_suffix s t)) [
    | inl absent ↦ ground arith
    | inr (r, found) ↦ (r, cut_suffix-eq-some s t found)
  ],
  λ (r, e). rw (cut_suffix_eq s t r e),
)

module _ (xs : List String) (value : String) where
  pub matches_any_wildcard_iff : (matches_any_wildcard xs value ≡ true) ↔ Any (λ p. Glob p value) xs
  unfolding matches_any_wildcard
  matches_any_wildcard_iff = any_iff _ (λ p. matches_wildcard_iff p value) xs

  pub matches_any_wildcard-eq-false_iff :
      (matches_any_wildcard xs value ≡ false) ↔ All (λ p. ¬ Glob p value) xs
  unfolding matches_any_wildcard
  matches_any_wildcard-eq-false_iff = any-eq-false_iff _ (λ p. matches_wildcard_iff p value) xs

  pub has_any_prefix_iff : (has_any_prefix xs value ≡ true) ↔ Any (λ p. StartsWith p value) xs
  unfolding has_any_prefix
  has_any_prefix_iff = any_iff _ (λ p. has_prefix_iff value p) xs

  pub has_any_prefix-eq-false_iff :
      (has_any_prefix xs value ≡ false) ↔ All (λ p. ¬ StartsWith p value) xs
  unfolding has_any_prefix
  has_any_prefix-eq-false_iff = any-eq-false_iff _ (λ p. has_prefix_iff value p) xs

  pub has_any_suffix_iff : (has_any_suffix xs value ≡ true) ↔ Any (λ p. EndsWith p value) xs
  unfolding has_any_suffix
  has_any_suffix_iff = any_iff _ (λ p. has_suffix_iff value p) xs

  pub has_any_suffix-eq-false_iff :
      (has_any_suffix xs value ≡ false) ↔ All (λ p. ¬ EndsWith p value) xs
  unfolding has_any_suffix
  has_any_suffix-eq-false_iff = any-eq-false_iff _ (λ p. has_suffix_iff value p) xs

  pub contains_string_or_wildcard_iff :
      (contains_string_or_wildcard xs value ≡ true) ↔ Any (λ s. (s ≡ value) ⊎ (s ≡ "*")) xs
  unfolding contains_string_or_wildcard
  contains_string_or_wildcard_iff = any_iff _ (λ s. or_iff _ _ (eq_iff s value) (eq_iff s "*")) xs

-- A group restriction covers a required group: it names no group or every group, or it is a
-- pattern for that group and the required group is a single one.
abbrev pub Covers : String → String → Type 0
Covers restricted required =
    (restricted ≡ "") ⊎ (restricted ≡ "*") ⊎ ((required ≢ "*") × Glob restricted required)

-- `apiGroupRestrictionCovers` holds exactly when the restriction covers the required group.
pub api_group_restriction_covers_iff :
    (r q : String) → (api_group_restriction_covers r q ≡ true) ↔ Covers r q
unfolding api_group_restriction_covers matches_api_group
api_group_restriction_covers_iff r q =
    ground (arith, eq_iff r "", eq_iff r "*", eq_iff q "*", matches_wildcard_iff r q)

abbrev pub HasStar : String → Type 0
HasStar pattern = (a b : String) × (pattern ≡ a ++ ("*" ++ b))

contains_text_iff : (pattern : String) → (contains_text pattern "*" ≡ true) ↔ HasStar pattern
contains_text_iff pattern = (
  λ e. elim (Option-cases (cut pattern "*")) [
    | inl absent ↦ ground arith
    | inr ((a, b), found) ↦ (a, b, cut-eq-some pattern "*" found)
  ],
  λ (a, b, e).
      let (a', b', c, found, _) = cut_leftmost pattern "*" a b e in rw (found, contains_text),
)

-- A resource pattern covers a name that it matches, and with no "*" in it every subresource.
abbrev pub CoversName : String → String → Type 0
CoversName pattern name =
    Glob pattern name ⊎ ((¬ HasStar pattern) × StartsWith (pattern ++ "/") name)

-- `matchesResourceName` holds exactly when the pattern covers the name.
pub matches_resource_name_iff :
    (pattern name : String) → (matches_resource_name pattern name ≡ true) ↔ CoversName pattern name
unfolding matches_resource_name
matches_resource_name_iff pattern name = ground (
  arith,
  matches_wildcard_iff pattern name,
  contains_text_iff pattern,
  has_prefix_iff name (pattern ++ "/"),
)

pub matches_api_group_iff :
    (pattern group : String) → (matches_api_group pattern group ≡ true) ↔ Glob pattern group
unfolding matches_api_group
matches_api_group_iff pattern group = matches_wildcard_iff pattern group

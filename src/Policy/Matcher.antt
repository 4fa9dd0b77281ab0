-- ===== src/Policy/Matcher.antt =====
-- pkg/policy/matcher.go: matching of names against patterns.
pub mod Glob
pub mod Greedy
pub mod Laws
pub mod Names
use Prim.Native.String.{[], ◌∷◌}
use Prim.Native.String
use auth_operator.Base.{
  Bool, true, false, ◌||◌, ◌&&◌, String, Char, List, ◌∷◌, Option, none, some, ◌==◌, split, cut,
  cut_prefix, cut_suffix, has_prefix, has_suffix, if◌then◌else◌, any, not,
}

-- The last of the parts, and the parts before it, of a nonempty list given by head and tail.
abbrev pub last_part : String → List String → String
last_part p List.[] = p
last_part p (q ∷ ps) = last_part q ps

abbrev pub init_parts : String → List String → List String
init_parts p List.[] = List.[]
init_parts p (q ∷ ps) = p ∷ init_parts q ps

-- The loop over the middle parts. `strings.Index` and the slice behind the occurrence are `cut`.
unfoldable pub match_middle : List String → String → Bool
match_middle List.[] remaining = true
match_middle (mid ∷ mids) remaining = elim (cut remaining mid) [
  | none ↦ false
  | some (_, after) ↦ match_middle mids after
]

-- The matching of prefix, suffix and middle parts, the pattern being cut at each "*".
unfoldable pub match_parts : List String → String → String → Bool
match_parts List.[] pattern value = pattern == value
match_parts (p ∷ List.[]) pattern value = pattern == value
match_parts (p ∷ q ∷ ps) pattern value = elim (cut_prefix value p) [
  | none ↦ false
  | some remaining ↦ elim (cut_suffix remaining (last_part q ps)) [
    | none ↦ false
    | some body ↦ match_middle (init_parts q ps) body
  ]
]

abbrev pub star : Char
star = "*"

unfoldable pub matches_wildcard : String → String → Bool
matches_wildcard pattern value =
    if pattern == "*" then true else match_parts (split pattern star) pattern value

unfoldable pub matches_any_wildcard : List String → String → Bool
matches_any_wildcard patterns value = any (λ p. matches_wildcard p value) patterns

unfoldable pub contains_string_or_wildcard : List String → String → Bool
contains_string_or_wildcard slice value = any (λ s. s == value || s == "*") slice

unfoldable pub matches_api_group : String → String → Bool
matches_api_group pattern api_group = matches_wildcard pattern api_group

-- `strings.Contains(s, t)`
abbrev pub contains_text : String → String → Bool
contains_text s t = elim (cut s t) [ none ↦ false | some _ ↦ true ]

unfoldable pub matches_resource_name : String → String → Bool
matches_resource_name pattern resource_name =
    if matches_wildcard pattern resource_name
    then true
    else if contains_text pattern "*"
    then false
    else has_prefix resource_name (String.◌++◌ pattern "/")

unfoldable pub api_group_restriction_covers : String → String → Bool
api_group_restriction_covers restricted_group required_group =
    if restricted_group == "" || restricted_group == "*"
    then true
    else if required_group == "*"
    then false
    else matches_api_group restricted_group required_group

unfoldable pub has_any_prefix : List String → String → Bool
has_any_prefix prefixes value = any (λ p. has_prefix value p) prefixes

unfoldable pub has_any_suffix : List String → String → Bool
has_any_suffix suffixes value = any (λ s. has_suffix value s) suffixes

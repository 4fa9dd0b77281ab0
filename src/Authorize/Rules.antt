-- ===== src/Authorize/Rules.antt =====
-- webhook_authorizer.go: which rules of an authorizer cover a request.
pub mod Laws
use Prim.Native.String
use auth_operator.Base.{
  ℕ, ◌+◌, String, List, Option, none, some, Bool, true, false, not, ◌&&◌, ◌||◌, [], ◌∷◌, ◌==◌, any,
  contains, nonempty, if◌then◌else◌, has_prefix, has_suffix, cut_suffix,
}
use auth_operator.Kube.{ResourceRule, NonResourceRule, ResourceAttributes, NonResourceAttributes}
use auth_operator.Api.Impersonation.{is_impersonation_verb}

abbrev pub allow_wildcard : String
allow_wildcard = "AllowWildcard"

abbrev pub deny : String
deny = "Deny"

abbrev pub require_explicit_verb : String
require_explicit_verb = "RequireExplicitVerb"

unfoldable pub matches_exact_or_all : List String → String → Bool
matches_exact_or_all patterns value = any (λ p. p == "*" || p == value) patterns

unfoldable pub matches_verb : List String → String → String → Bool
matches_verb patterns verb verb_policy =
    if not (is_impersonation_verb verb)
    then matches_exact_or_all patterns verb
    else if verb_policy == allow_wildcard || verb_policy == deny
    then matches_exact_or_all patterns verb
    else contains patterns verb

unfoldable pub matches_resource_rule : List String → String → String → Bool
matches_resource_rule patterns resource_key subresource =
    any
      (λ p.
        (p == "*" || p == resource_key)
        || (not (subresource == "") && p == String.◌++◌ "*/" subresource))
      patterns

-- `strings.TrimSuffix(s, t)`
abbrev pub trimmed : String → Option String → String
trimmed s none = s
trimmed s (some front) = front

unfoldable pub matches_non_resource_url_rule : List String → String → Bool
matches_non_resource_url_rule patterns path =
    any
      (λ p.
        (p == "*" || p == path)
        || (has_suffix p "/*" && has_prefix path (trimmed p (cut_suffix p "*"))))
      patterns

-- The index of the first element that passes, from index `i` on; `none` is the -1 of the source.
abbrev pub index_from {ℓ} : {A : Type ℓ} → ℕ → (A → Bool) → List A → Option ℕ
index_from i test [] = none
index_from i test (x ∷ xs) =
    let rest = index_from (i + 1) test xs in if test x then some i else rest

unfoldable pub resource_key : ResourceAttributes → String
resource_key attr =
    if not (attr.subresource == "")
    then String.◌++◌ attr.resource (String.◌++◌ "/" attr.subresource)
    else attr.resource

-- The body of the loop of `resourceRuleIndex`: no test leads to `continue`.
unfoldable pub resource_rule_matches : ResourceAttributes → String → ResourceRule → Bool
resource_rule_matches attr verb_policy rule =
    matches_verb rule.verbs attr.verb verb_policy
    && (matches_exact_or_all rule.api_groups attr.group
        && (matches_resource_rule rule.resources (resource_key attr) attr.subresource
            && (not (nonempty rule.resource_names)
                || matches_exact_or_all rule.resource_names attr.name)))

unfoldable pub resource_rule_index : List ResourceRule → ResourceAttributes → String → Option ℕ
resource_rule_index rules attr verb_policy =
    index_from 0 (resource_rule_matches attr verb_policy) rules

unfoldable pub non_resource_rule_matches : NonResourceAttributes → NonResourceRule → Bool
non_resource_rule_matches attr rule =
    matches_exact_or_all rule.verbs attr.verb
    && matches_non_resource_url_rule rule.non_resource_urls attr.path

unfoldable pub non_resource_rule_index : List NonResourceRule → NonResourceAttributes → Option ℕ
non_resource_rule_index rules attr = index_from 0 (non_resource_rule_matches attr) rules

-- ===== src/Api/Impersonation.antt =====
-- api/authorization/v1alpha1/constrained_impersonation_types.go: the grant's types, the verbs
-- of constrained impersonation and the RBAC rules that a grant becomes.
pub mod Verbs
use Prim.Native.String
use auth_operator.Base.{
  String, List, [], ◌∷◌, ◌++◌, ◌==◌, Bool, true, false, not, ◌||◌, ◌&&◌, Option, none, some,
  has_prefix, cut_prefix, cut, contains, if◌then◌else◌, sort, compact, map, nonempty,
}
use auth_operator.Kube.{PolicyRule}

-- `type ImpersonationMode string` and `type ImpersonationIdentityResource string`
abbrev pub ImpersonationMode : Type 0
ImpersonationMode = String

abbrev pub ImpersonationIdentityResource : Type 0
ImpersonationIdentityResource = String

pub record ImpersonationIdentityRule : Type 0 where
  pub resource : ImpersonationIdentityResource
  pub extra_key : String
  pub names : List String

pub record ImpersonationActionRule : Type 0 where
  pub api_groups : List String
  pub resources : List String
  pub resource_names : List String
  pub verbs : List String

pub record ConstrainedImpersonationSpec : Type 0 where
  pub mode : ImpersonationMode
  pub identities : List ImpersonationIdentityRule
  pub actions : List ImpersonationActionRule

-- ImpersonateVerbPrefix, ImpersonateOnVerbPrefix and LegacyImpersonateVerb
abbrev pub impersonate_verb_prefix : String
impersonate_verb_prefix = "impersonate:"

abbrev pub impersonate_on_verb_prefix : String
impersonate_on_verb_prefix = "impersonate-on:"

abbrev pub legacy_impersonate_verb : String
legacy_impersonate_verb = "impersonate"

abbrev pub all_impersonation_modes : List ImpersonationMode
all_impersonation_modes = "associated-node" ∷ "arbitrary-node" ∷ "serviceaccount" ∷ "user-info" ∷ []

unfoldable pub identity_verb : ImpersonationMode → String
identity_verb mode = String.◌++◌ impersonate_verb_prefix mode

unfoldable pub action_verb : ImpersonationMode → String → String
action_verb mode verb =
    String.◌++◌ impersonate_on_verb_prefix (String.◌++◌ mode (String.◌++◌ ":" verb))

unfoldable pub is_impersonation_verb : String → Bool
is_impersonation_verb verb =
    has_prefix verb impersonate_verb_prefix || has_prefix verb impersonate_on_verb_prefix

unfoldable pub is_known_mode : ImpersonationMode → Bool
is_known_mode mode = contains all_impersonation_modes mode

pub record ParsedImpersonationVerb : Type 0 where
  pub mode : ImpersonationMode
  pub action : String
  pub is_action : Bool

-- The branch of `ParseImpersonationVerb` behind the action prefix, by the result of `strings.Cut`.
unfoldable pub parse_action : Option (String × String) → Option ParsedImpersonationVerb
parse_action none = none
parse_action (some (mode, underlying)) =
    if underlying == "" || not (is_known_mode mode)
    then none
    else some (record { mode = mode; action = underlying; is_action = true })

unfoldable pub parse_identity : Option String → Option ParsedImpersonationVerb
parse_identity none = none
parse_identity (some mode) =
    if is_known_mode mode
    then some (record { mode = mode; action = ""; is_action = false })
    else none

-- By the results of cutting the action prefix and, where that is missing, the identity prefix.
unfoldable pub parse_by_prefix : Option String → Option String → Option ParsedImpersonationVerb
parse_by_prefix (some action) identity = parse_action (cut action ":")
parse_by_prefix none identity = parse_identity identity

unfoldable pub parse_impersonation_verb : String → Option ParsedImpersonationVerb
parse_impersonation_verb verb =
    parse_by_prefix (cut_prefix verb impersonate_on_verb_prefix)
      (cut_prefix verb impersonate_verb_prefix)

unfoldable pub identity_rule_resource : ImpersonationIdentityRule → String
identity_rule_resource rule =
    if rule.resource == "userextras"
    then String.◌++◌ "userextras" (String.◌++◌ "/" rule.extra_key)
    else rule.resource

-- `slices` without the empty text, sorted, each entry once.
abbrev pub without_empty : List String → List String
without_empty [] = []
without_empty (v ∷ vs) = if not (v == "") then v ∷ without_empty vs else without_empty vs

unfoldable pub dedupe_sorted : List String → List String
dedupe_sorted values = compact (sort (without_empty values))

unfoldable pub dedupe_sorted_allow_empty : List String → List String
dedupe_sorted_allow_empty values = compact (sort values)

-- `namesByResource[resource] = append(namesByResource[resource], names...)`
abbrev pub append_names :
    String → List String → List (String × List String) → List (String × List String)
append_names resource names [] = (resource, names) ∷ []
append_names resource names ((key, old) ∷ m) =
    if key == resource then (key, old ++ names) ∷ m else (key, old) ∷ append_names resource names m

unfoldable pub names_by_resource :
    List ImpersonationIdentityRule → List (String × List String) → List (String × List String)
names_by_resource [] m = m
names_by_resource (rule ∷ rules) m =
    names_by_resource rules (append_names (identity_rule_resource rule) rule.names m)

abbrev pub names_at : String → List (String × List String) → List String
names_at resource [] = []
names_at resource ((key, names) ∷ m) = if key == resource then names else names_at resource m

abbrev pub keys : List (String × List String) → List String
keys [] = []
keys ((key, names) ∷ m) = key ∷ keys m

unfoldable pub identity_policy_rule :
    ImpersonationMode → List (String × List String) → String → PolicyRule
identity_policy_rule mode m resource = record {
  verbs = identity_verb mode ∷ [];
  api_groups = "authentication.k8s.io" ∷ [];
  resources = resource ∷ [];
  resource_names = dedupe_sorted (names_at resource m);
  non_resource_urls = [];
}

unfoldable pub action_policy_rule : ImpersonationMode → ImpersonationActionRule → PolicyRule
action_policy_rule mode action = record {
  verbs = dedupe_sorted (map (action_verb mode) action.verbs);
  api_groups = dedupe_sorted_allow_empty action.api_groups;
  resources = dedupe_sorted action.resources;
  resource_names = dedupe_sorted action.resource_names;
  non_resource_urls = [];
}

-- `none` is the error for an unknown mode. A nil spec gives no rules.
unfoldable pub build_constrained_impersonation_rules :
    Option ConstrainedImpersonationSpec → Option (List PolicyRule)
build_constrained_impersonation_rules none = some []
build_constrained_impersonation_rules (some spec) =
    if not (is_known_mode spec.mode)
    then none
    else let m = names_by_resource spec.identities [] in
      some (
        map (identity_policy_rule spec.mode m) (sort (keys m))
        ++ map (action_policy_rule spec.mode) spec.actions)

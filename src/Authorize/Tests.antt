-- ===== src/Authorize/Tests.antt =====
-- Runs of the authorizer at fixed inputs, and the properties applied to them.
mod Serving
mod Handling
use auth_operator.Base.{
  pos, String, List, none, some, Bool, true, false, [], ◌∷◌, ◌==◌, ◌≡◌, refl, ◌↔◌, if◌then◌else◌,
  cut_prefix, has_prefix, split,
}
use auth_operator.Kube.{LabelSelector, ResourceRule, ResourceAttributes, SubjectAccessReview}
use auth_operator.Api.Impersonation.{is_impersonation_verb}
use auth_operator.Policy.Labels.{Fallible, ok, failed}
use auth_operator.Authorize.Rules.{
  matches_verb, matches_exact_or_all, matches_resource_rule, resource_key, resource_rule_matches,
  resource_rule_index, non_resource_rule_index,
}
use auth_operator.Authorize.Rules.Laws.{
  VerbCovered, matches_verb_iff, RuleCovers, FirstAt, resource_rule_index-eq-some_iff,
}
use auth_operator.Authorize.Principals.{
  Principal, intersects, extra_value_matches, principal_extra_matches,
  parse_service_account_username, is_service_account_in_namespace, principal_matches_subject,
  principal_matches,
}
use auth_operator.Authorize.Principals.Laws.{PrincipalMatches, principal_matches_subject_iff}
use auth_operator.Authorize.Evaluate.{
  WebhookAuthorizer, effective_impersonation_verb_policy, matches_impersonation_deny,
  match_request_rule_with_field, judge_by, judge, is_label_selector_empty, applies, evaluate_items,
}
use auth_operator.Authorize.Evaluate.Laws.{
  verdict, Gives, FirstTo, Denies, Grants, evaluate_items-Denies_iff, evaluate_items-Grants_iff,
}

-- The namespace "x" is selected, and "down" cannot be looked up.
abbrev lookup : String → LabelSelector → Fallible Bool
lookup namespace selector = if namespace == "down" then failed "timeout" else ok (namespace == "x")

abbrev anywhere : LabelSelector
anywhere = record { match_labels = []; match_expressions = [] }

abbrev somewhere : LabelSelector
somewhere = record { match_labels = ("team", "x") ∷ []; match_expressions = [] }

abbrev everything : ResourceRule
everything = record {
  verbs = "*" ∷ [];
  api_groups = "*" ∷ [];
  resources = "*" ∷ [];
  resource_names = [];
}

abbrev ann : Principal
ann = record { user = "ann"; groups = []; namespace = ""; uid = ""; extra = [] }

abbrev account : Principal
account = record { user = "builder"; groups = []; namespace = "ci"; uid = ""; extra = [] }

abbrev authorizer :
    String → String → LabelSelector → List Principal → List Principal → WebhookAuthorizer
authorizer name verb_policy selector allowed denied = record {
  name = name;
  generation = pos 1;
  status = record { observed_generation = pos 1; authorizer_configured = true; conditions = [] };
  spec = record {
    resource_rules = everything ∷ [];
    non_resource_rules = [];
    allowed_principals = allowed;
    denied_principals = denied;
    namespace_selector = selector;
    impersonation_verb_policy = verb_policy;
  };
}

abbrev attributes : String → String → ResourceAttributes
attributes verb namespace = record {
  namespace = namespace;
  verb = verb;
  group = "";
  version = "v1";
  resource = "pods";
  subresource = "log";
  name = "p";
}

abbrev request : String → String → String → SubjectAccessReview
request user verb namespace = record {
  resource_attributes = some (attributes verb namespace);
  non_resource_attributes = none;
  user = user;
  groups = [];
  extra = [];
  uid = "";
}

abbrev kill_switch : WebhookAuthorizer
kill_switch = authorizer "kill" "Deny" anywhere [] []

abbrev team : WebhookAuthorizer
team = authorizer "team" "" somewhere (ann ∷ account ∷ []) []

runs :
    (verdict (evaluate_items lookup (request "ann" "get" "x") (kill_switch ∷ team ∷ []) 0 0)
      ≡ some true)
    × (verdict (evaluate_items lookup (request "ann" "get" "y") (kill_switch ∷ team ∷ []) 0 0)
        ≡ none)
    × (verdict (evaluate_items lookup (request "ann" "get" "down") (kill_switch ∷ team ∷ []) 0 0)
        ≡ none)
    × (verdict (
          evaluate_items lookup
            (request "ann" "impersonate:user-info" "x")
            (kill_switch ∷ team ∷ [])
            0
            0)
        ≡ some false)
    × (verdict (evaluate_items lookup (request "ann" "impersonate:user-info" "x") (team ∷ []) 0 0)
        ≡ none)
    × (verdict (
          evaluate_items lookup
            (request "system:serviceaccount:ci:builder" "get" "x")
            (team ∷ [])
            0
            0)
        ≡ some true)
unfolding evaluate_items applies is_label_selector_empty judge judge_by
    match_request_rule_with_field matches_impersonation_deny effective_impersonation_verb_policy
    principal_matches principal_matches_subject is_service_account_in_namespace
    parse_service_account_username principal_extra_matches extra_value_matches intersects
    non_resource_rule_index resource_rule_index resource_rule_matches resource_key
    matches_resource_rule matches_exact_or_all matches_verb is_impersonation_verb cut_prefix
    has_prefix split
runs = (refl, refl, refl, refl, refl, refl)

evaluate_items-Denies_iff_example :
    ((verdict (
          evaluate_items lookup
            (request "ann" "impersonate:user-info" "x")
            (team ∷ kill_switch ∷ [])
            0
            0)
        ≡ some false)
      ↔ FirstTo lookup
          (request "ann" "impersonate:user-info" "x")
          (Denies (request "ann" "impersonate:user-info" "x"))
          (team ∷ kill_switch ∷ []))
    × (Gives false "denied" (
          evaluate_items lookup
            (request "ann" "impersonate:user-info" "x")
            (team ∷ kill_switch ∷ [])
            0
            0)
        ↔ FirstTo lookup
            (request "ann" "impersonate:user-info" "x")
            (Denies (request "ann" "impersonate:user-info" "x"))
            (team ∷ kill_switch ∷ []))
evaluate_items-Denies_iff_example =
    evaluate_items-Denies_iff lookup (request "ann" "impersonate:user-info" "x")
      (team ∷ kill_switch ∷ []) 0 0

evaluate_items-Grants_iff_example :
    (verdict (evaluate_items lookup (request "ann" "get" "x") (kill_switch ∷ team ∷ []) 0 0)
      ≡ some true)
    ↔ FirstTo lookup
        (request "ann" "get" "x")
        (Grants (request "ann" "get" "x"))
        (kill_switch ∷ team ∷ [])
evaluate_items-Grants_iff_example =
    evaluate_items-Grants_iff lookup (request "ann" "get" "x") (kill_switch ∷ team ∷ []) 0 0

matches_verb_iff_example :
    (matches_verb ("*" ∷ []) "impersonate:user-info" "" ≡ true)
    ↔ VerbCovered ("*" ∷ []) "impersonate:user-info" ""
matches_verb_iff_example = matches_verb_iff ("*" ∷ []) "impersonate:user-info" ""

resource_rule_index-eq-some_iff_example :
    (resource_rule_index (everything ∷ []) (attributes "get" "x") "" ≡ some 0)
    ↔ FirstAt (RuleCovers (attributes "get" "x") "") (everything ∷ []) 0
resource_rule_index-eq-some_iff_example =
    resource_rule_index-eq-some_iff (everything ∷ []) (attributes "get" "x") "" 0

principal_matches_subject_iff_example :
    (principal_matches_subject account (request "system:serviceaccount:ci:builder" "get" "x")
      ≡ true)
    ↔ PrincipalMatches account (request "system:serviceaccount:ci:builder" "get" "x")
principal_matches_subject_iff_example =
    principal_matches_subject_iff account (request "system:serviceaccount:ci:builder" "get" "x")

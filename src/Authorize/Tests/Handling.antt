-- ===== src/Authorize/Tests/Handling.antt =====
-- The properties of the token, of the listing and of the handler, applied to a request with the token
-- set, and to the authorizers of a cache without the index.
use auth_operator.Base.{
  String, List, Option, none, some, true, false, [], ◌∷◌, ◌==◌, All, ◌≡◌, refl, ◌↔◌, ◌⊎◌,
  if◌then◌else◌, cut_prefix, has_prefix, split, cut, has_text, str_le, plain,
}
use auth_operator.Kube.{Condition, Lookup, found, missing}
use auth_operator.Api.Impersonation.{is_impersonation_verb}
use auth_operator.Policy.Labels.{Fallible, ok, failed}
use auth_operator.Authorize.Rules.{
  matches_verb, matches_exact_or_all, matches_resource_rule, resource_key, resource_rule_matches,
  resource_rule_index, non_resource_rule_index,
}
use auth_operator.Authorize.Principals.{
  intersects, extra_value_matches, principal_extra_matches, parse_service_account_username,
  is_service_account_in_namespace, principal_matches_subject, principal_matches,
}
use auth_operator.Authorize.Evaluate.{
  WebhookAuthorizer, EvaluationResult, effective_impersonation_verb_policy,
  matches_impersonation_deny, match_request_rule_with_field, judge_by, judge,
  is_label_selector_empty, applies, evaluate_items,
}
use auth_operator.Authorize.Evaluate.Laws.{FirstTo, Grants}
use auth_operator.Authorize.Decide.{after_items, evaluate_sar}
use auth_operator.Authorize.Decide.Laws.{IsBridgeGrant}
use auth_operator.Authorize.Listing.{
  has_namespace_selector, is_ready, authorizer_ready_for_evaluation, read_candidates,
  list_authorizers_by_index, select_items, insert_by_name, sort_by_name,
}
use auth_operator.Authorize.Listing.Laws.{
  ReadAgain, Candidates, list_authorizers_by_index-ReadAgain, index_of,
  list_authorizers_by_index-fallback,
}
use auth_operator.Authorize.Authenticate.{
  TokenSettings, expected_bearer_token, constant_time_token_equal, authenticate_request,
}
use auth_operator.Authorize.Authenticate.Laws.{Authenticated, authenticate_request_iff}
use auth_operator.Authorize.Serve.{
  validate_sar, allow_subject_request, SubjectAccessReviewStatus, reply, public_authorizer_reason,
  result_status, Request, Authorizer, list_for, after_evaluation, serve_listed, serve_decoded,
  serve_http,
}
use auth_operator.Authorize.Serve.Laws.{
  IsDenial, Evaluates, FromResult, serve_http-fails_closed, serve_http-allowed,
}
use auth_operator.Authorize.Tests.{kill_switch, team, request}
use auth_operator.Authorize.Tests.Serving.{around}

abbrev tokens : TokenSettings
tokens = record {
  bearer_token = "";
  bearer_token_file = "/token";
  allow_unauthenticated_authorize = false;
  read_file = λ path. ok "s3cret";
  trim_space = λ s. s;
  sum256 = λ s. s;
}

-- The first condition of a kind.
abbrev find : List Condition → String → Option Condition
find [] kind = none
find (c ∷ conditions) kind =
    let rest = find conditions kind in if c.condition_type == kind then some c else rest

abbrev cached : List WebhookAuthorizer
cached = kill_switch ∷ team ∷ []

abbrev by_index : String → Fallible (List WebhookAuthorizer)
by_index value = if value == "true" then ok (team ∷ []) else ok (kill_switch ∷ [])

abbrev no_index : String → Fallible (List WebhookAuthorizer)
no_index value = failed "Index with name field:.spec.hasNamespaceSelector does not exist"

abbrev get : String → Lookup WebhookAuthorizer
get name =
    if name == "team" then found team else if name == "kill" then found kill_switch else missing

abbrev webhook : Authorizer
webhook = record {
  tokens = tokens;
  limiter = none;
  find_condition = find;
  indexed = by_index;
  all_authorizers = ok cached;
  get_authorizer = get;
  around = around;
  marshals = λ status. true;
}

abbrev call : Request
call = record { authorization = "Bearer s3cret"; body = ok (request "ann" "get" "x") }

authenticate_request_iff_example :
    (authenticate_request tokens "Bearer s3cret" ≡ true) ↔ Authenticated tokens "Bearer s3cret"
authenticate_request_iff_example = authenticate_request_iff tokens "Bearer s3cret"

serve_http-fails_closed_example :
    IsDenial (serve_http webhook [] call).0
    ⊎ ((r : EvaluationResult) × Evaluates webhook [] call r
        × FromResult webhook (serve_http webhook [] call).0 r)
serve_http-fails_closed_example = serve_http-fails_closed webhook [] call

abbrev granting : SubjectAccessReviewStatus
granting = record {
  allowed = true;
  denied = false;
  reason = plain "Access granted by WebhookAuthorizer";
}

listed : list_authorizers_by_index find by_index (ok cached) get "true" ≡ some (team ∷ [])
unfolding list_authorizers_by_index read_candidates authorizer_ready_for_evaluation is_ready
    has_namespace_selector is_label_selector_empty
listed = refl

list_authorizers_by_index-ReadAgain_example :
    (candidates : List WebhookAuthorizer) × Candidates find (by_index "true") (ok cached) candidates
    × All (ReadAgain find get candidates) (team ∷ [])
list_authorizers_by_index-ReadAgain_example =
    list_authorizers_by_index-ReadAgain find by_index (ok cached) get "true" (team ∷ []) listed

indexed_right : by_index "true" ≡ ok (index_of "true" cached)
unfolding has_namespace_selector is_label_selector_empty
indexed_right = refl

told :
    has_text "Index with name field:.spec.hasNamespaceSelector does not exist" "Index with name"
    ≡ true
unfolding has_text cut cut_prefix
told = refl

list_authorizers_by_index-fallback_example :
    list_authorizers_by_index find no_index (ok cached) get "true"
    ≡ list_authorizers_by_index find by_index (ok cached) get "true"
list_authorizers_by_index-fallback_example =
    list_authorizers_by_index-fallback find get "true" by_index no_index cached
      "Index with name field:.spec.hasNamespaceSelector does not exist" indexed_right refl told

answered : (serve_http webhook [] call).0 ≡ reply granting
unfolding serve_http serve_decoded serve_listed after_evaluation list_for validate_sar
    allow_subject_request result_status public_authorizer_reason authenticate_request
    expected_bearer_token constant_time_token_equal list_authorizers_by_index read_candidates
    authorizer_ready_for_evaluation is_ready has_namespace_selector select_items sort_by_name
    insert_by_name str_le evaluate_sar after_items evaluate_items applies is_label_selector_empty
    judge judge_by match_request_rule_with_field matches_impersonation_deny
    effective_impersonation_verb_policy principal_matches principal_matches_subject
    is_service_account_in_namespace parse_service_account_username principal_extra_matches
    extra_value_matches intersects non_resource_rule_index resource_rule_index resource_rule_matches
    resource_key matches_resource_rule matches_exact_or_all matches_verb split is_impersonation_verb
    has_prefix cut_prefix
answered = refl

serve_http-allowed_example :
    (r : EvaluationResult) × (steps : Evaluates webhook [] call r) × (let items =
        sort_by_name (select_items steps.sar steps.global steps.scoped) in
      FirstTo around.namespace_matches steps.sar (Grants steps.sar) items
      ⊎ IsBridgeGrant around [] steps.sar items r.authorizer_name)
serve_http-allowed_example = serve_http-allowed webhook [] call granting answered refl

-- ===== src/Authorize/Serve.antt =====
-- webhook_authorizer.go: `ServeHTTP`, from a request on /authorize to the answer. Traces, logs and
-- metrics leave no trace in the answer.
pub mod Laws
use Prim.Native.String
use auth_operator.Base.{
  String, List, Option, none, some, Bool, true, false, not, ◌&&◌, [], ◌∷◌, ◌==◌, nonempty,
  if◌then◌else◌, is_some, sort, compact, join, Text, plain,
}
use auth_operator.Kube.{Condition, Lookup, SubjectAccessReview}
use auth_operator.Policy.Labels.{Fallible, ok, failed}
use auth_operator.Authorize.Evaluate.{WebhookAuthorizer, EvaluationResult}
use auth_operator.Authorize.Bridge.Scope.{ScopeCache}
use auth_operator.Authorize.Decide.{
  Surroundings, Evaluation, evaluated, evaluation_error, evaluate_sar,
}
use auth_operator.Authorize.Listing.{
  with_selector, without_selector, list_authorizers_by_index, select_items, sort_by_name,
}
use auth_operator.Authorize.Authenticate.{TokenSettings, authenticate_request}

abbrev pub reason_empty_identity : String
reason_empty_identity = "empty user identity and no groups"

abbrev pub reason_missing_attrs : String
reason_missing_attrs = "missing resource and non-resource attributes"

abbrev pub reason_multiple_attrs : String
reason_multiple_attrs = "resource and non-resource attributes are mutually exclusive"

abbrev pub reason_internal_evaluation_error : String
reason_internal_evaluation_error = "internal evaluation error"

abbrev pub reason_unauthorized : String
reason_unauthorized = "unauthorized"

-- The reason to reject the review, "" for none.
unfoldable pub validate_sar : SubjectAccessReview → String
validate_sar sar =
    if sar.user == "" && not (nonempty sar.groups)
    then reason_empty_identity
    else if not (is_some sar.resource_attributes) && not (is_some sar.non_resource_attributes)
    then reason_missing_attrs
    else if is_some sar.resource_attributes && is_some sar.non_resource_attributes
    then reason_multiple_attrs
    else ""

unfoldable pub rate_limit_subject_key : SubjectAccessReview → String
rate_limit_subject_key sar =
    String.◌++◌ sar.user (String.◌++◌ "\0" (join (compact (sort sar.groups)) "\0"))

-- The limit is infinite, or the limiters by subject, a library's, allow a key or could not be made.
pub record Limiter : Type 0 where
  pub unlimited : Bool
  pub subject_limiters : Fallible (String → Bool)

abbrev pub allowed_key : Fallible (String → Bool) → String → Bool
allowed_key (failed error) key = false
allowed_key (ok allow) key = allow key

-- `wa.Limiter == nil || wa.allowSubjectRequest(&sar)`
unfoldable pub allow_subject_request : Option Limiter → SubjectAccessReview → Bool
allow_subject_request none sar = true
allow_subject_request (some limiter) sar =
    if limiter.unlimited
    then true
    else allowed_key limiter.subject_limiters (rate_limit_subject_key sar)

-- authzv1.SubjectAccessReviewStatus
pub record SubjectAccessReviewStatus : Type 0 where
  pub allowed : Bool
  pub denied : Bool
  pub reason : Text

-- The answer, a review's status or the HTTP error 500.
pub data Reply : Type 0 where
  reply : SubjectAccessReviewStatus → Reply
  server_error : String → Reply

abbrev pub denied_response : String → Reply
denied_response reason = reply (record { allowed = false; denied = true; reason = plain reason })

unfoldable pub public_authorizer_reason : EvaluationResult → Text
public_authorizer_reason r =
    if r.decision == "allowed"
    then if r.matched_field == "bindDefinition"
      then plain "Access granted by BindDefinition"
      else plain "Access granted by WebhookAuthorizer"
    else if r.decision == "denied"
    then plain "Access denied by WebhookAuthorizer"
    else r.reason

unfoldable pub result_status : EvaluationResult → SubjectAccessReviewStatus
result_status r = record {
  allowed = r.allowed;
  denied = r.decision == "denied";
  reason = public_authorizer_reason r;
}

-- A request: its header Authorization, and its body, of at most 1 MB, as the JSON library decodes it.
pub record Request : Type 0 where
  pub authorization : String
  pub body : Fallible SubjectAccessReview

-- The handler: `marshals` tells whether the JSON library can encode a status.
pub record Authorizer : Type 0 where
  pub tokens : TokenSettings
  pub limiter : Option Limiter
  pub find_condition : List Condition → String → Option Condition
  pub indexed : String → Fallible (List WebhookAuthorizer)
  pub all_authorizers : Fallible (List WebhookAuthorizer)
  pub get_authorizer : String → Lookup WebhookAuthorizer
  pub around : Surroundings
  pub marshals : SubjectAccessReviewStatus → Bool

unfoldable pub list_for : Authorizer → String → Option (List WebhookAuthorizer)
list_for wa wanted =
    list_authorizers_by_index wa.find_condition wa.indexed wa.all_authorizers wa.get_authorizer
      wanted

abbrev pub marshal_response : Authorizer → SubjectAccessReviewStatus → Reply
marshal_response wa status =
    if wa.marshals status then reply status else server_error "internal evaluation error"

unfoldable pub after_evaluation : Authorizer → Evaluation × ScopeCache → Reply × ScopeCache
after_evaluation wa (evaluation_error error, cache) =
    (denied_response reason_internal_evaluation_error, cache)
after_evaluation wa (evaluated r, cache) = (marshal_response wa (result_status r), cache)

-- The evaluation, by the authorizers without and with a namespace selector.
unfoldable pub serve_listed :
    Authorizer
    → ScopeCache
    → SubjectAccessReview
    → Option (List WebhookAuthorizer)
    → Option (List WebhookAuthorizer)
    → Reply × ScopeCache
serve_listed wa cache sar none scoped = (denied_response reason_internal_evaluation_error, cache)
serve_listed wa cache sar (some global) none =
    (denied_response reason_internal_evaluation_error, cache)
serve_listed wa cache sar (some global) (some scoped) =
    after_evaluation wa
      (evaluate_sar wa.around cache sar (sort_by_name (select_items sar global scoped)))

unfoldable pub serve_decoded :
    Authorizer → ScopeCache → Fallible SubjectAccessReview → Reply × ScopeCache
serve_decoded wa cache (failed error) = (denied_response "invalid request body", cache)
serve_decoded wa cache (ok sar) =
    if not (validate_sar sar == "")
    then (denied_response (validate_sar sar), cache)
    else if not (allow_subject_request wa.limiter sar)
    then (denied_response "rate limit exceeded", cache)
    else serve_listed wa cache sar (list_for wa without_selector) (list_for wa with_selector)

-- `ServeHTTP`: the answer, and the cache of scopes that it leaves.
unfoldable pub serve_http : Authorizer → ScopeCache → Request → Reply × ScopeCache
serve_http wa cache request =
    if not (authenticate_request wa.tokens request.authorization)
    then (denied_response reason_unauthorized, cache)
    else serve_decoded wa cache request.body

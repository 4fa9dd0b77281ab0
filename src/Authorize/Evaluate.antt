-- ===== src/Authorize/Evaluate.antt =====
-- webhook_authorizer.go: the authorizers in order, and the first one with an opinion.
pub mod Laws
use auth_operator.Base.{
  ℕ, ℤ, ◌+◌, String, List, Option, none, some, Bool, true, false, not, ◌&&◌, [], ◌∷◌, ◌==◌,
  nonempty, map, if◌then◌else◌, Text, sprintf, plain, str,
}
use auth_operator.Kube.{
  Condition, LabelSelector, ResourceRule, NonResourceRule, ResourceAttributes,
  NonResourceAttributes, SubjectAccessReview,
}
use auth_operator.Api.Impersonation.{is_impersonation_verb}
use auth_operator.Policy.Labels.{Fallible, ok, failed}
use auth_operator.Authorize.Rules.{
  deny, require_explicit_verb, resource_rule_index, non_resource_rule_index,
}
use auth_operator.Authorize.Principals.{Principal, principal_matches}

pub record WebhookAuthorizerSpec : Type 0 where
  pub resource_rules : List ResourceRule
  pub non_resource_rules : List NonResourceRule
  pub allowed_principals : List Principal
  pub denied_principals : List Principal
  pub namespace_selector : LabelSelector
  pub impersonation_verb_policy : String

pub record WebhookAuthorizerStatus : Type 0 where
  pub observed_generation : ℤ
  pub authorizer_configured : Bool
  pub conditions : List Condition

pub record WebhookAuthorizer : Type 0 where
  pub name : String
  pub generation : ℤ
  pub status : WebhookAuthorizerStatus
  pub spec : WebhookAuthorizerSpec

-- `matched_rule` is `none` for -1.
pub record EvaluationResult : Type 0 where
  pub allowed : Bool
  pub reason : Text
  pub decision : String
  pub authorizer_name : String
  pub matched_rule : Option ℕ
  pub matched_field : String
  pub evaluated_count : ℕ
  pub skipped_count : ℕ

unfoldable pub effective_impersonation_verb_policy : WebhookAuthorizer → String
effective_impersonation_verb_policy authorizer =
    if authorizer.spec.impersonation_verb_policy == ""
    then require_explicit_verb
    else authorizer.spec.impersonation_verb_policy

abbrev pub deny_index : WebhookAuthorizer → Option ResourceAttributes → Option ℕ
deny_index authorizer none = none
deny_index authorizer (some attr) =
    if not (is_impersonation_verb attr.verb)
    then none
    else resource_rule_index authorizer.spec.resource_rules attr deny

unfoldable pub matches_impersonation_deny : WebhookAuthorizer → SubjectAccessReview → Option ℕ
matches_impersonation_deny authorizer sar =
    if not (effective_impersonation_verb_policy authorizer == deny)
    then none
    else deny_index authorizer sar.resource_attributes

abbrev pub resource_match : WebhookAuthorizer → Option ResourceAttributes → Option ℕ
resource_match authorizer none = none
resource_match authorizer (some attr) =
    resource_rule_index authorizer.spec.resource_rules attr
      (effective_impersonation_verb_policy authorizer)

abbrev pub non_resource_match : WebhookAuthorizer → Option NonResourceAttributes → Option ℕ
non_resource_match authorizer none = none
non_resource_match authorizer (some attr) =
    non_resource_rule_index authorizer.spec.non_resource_rules attr

-- The resource rule found, or else the non-resource rule.
abbrev pub with_field : Option ℕ → Option ℕ → Option (ℕ × String)
with_field (some i) other = some (i, "resourceRule")
with_field none (some i) = some (i, "nonResourceRule")
with_field none none = none

unfoldable pub match_request_rule_with_field :
    WebhookAuthorizer → SubjectAccessReview → Option (ℕ × String)
match_request_rule_with_field authorizer sar =
    with_field (resource_match authorizer sar.resource_attributes)
      (non_resource_match authorizer sar.non_resource_attributes)

-- The results of the loop, by the rule for impersonation, whether a denied or an allowed principal
-- matches, and the rule for the request.
unfoldable pub judge_by :
    String → ℕ → ℕ → Option ℕ → Bool → Bool → Option (ℕ × String) → Option EvaluationResult
judge_by name evaluated skipped (some i) denied allowed rule = some (record {
  allowed = false;
  reason = sprintf "Constrained impersonation denied by WebhookAuthorizer %s" (str name ∷ []);
  decision = "denied";
  authorizer_name = name;
  matched_rule = some i;
  matched_field = "impersonationVerbPolicy";
  evaluated_count = evaluated;
  skipped_count = skipped;
})
judge_by name evaluated skipped none denied allowed none = none
judge_by name evaluated skipped none denied allowed (some (i, matched_field)) =
    if denied
    then some (record {
      allowed = false;
      reason = sprintf "Access denied by WebhookAuthorizer %s" (str name ∷ []);
      decision = "denied";
      authorizer_name = name;
      matched_rule = some i;
      matched_field = "deniedPrincipal";
      evaluated_count = evaluated;
      skipped_count = skipped;
    })
    else if allowed
    then some (record {
      allowed = true;
      reason = sprintf "Access granted by WebhookAuthorizer %s" (str name ∷ []);
      decision = "allowed";
      authorizer_name = name;
      matched_rule = some i;
      matched_field = matched_field;
      evaluated_count = evaluated;
      skipped_count = skipped;
    })
    else none

unfoldable pub judge : SubjectAccessReview → WebhookAuthorizer → ℕ → ℕ → Option EvaluationResult
judge sar authorizer evaluated skipped =
    judge_by authorizer.name evaluated skipped (matches_impersonation_deny authorizer sar)
      (principal_matches sar authorizer.spec.denied_principals)
      (principal_matches sar authorizer.spec.allowed_principals)
      (match_request_rule_with_field authorizer sar)

unfoldable pub is_label_selector_empty : LabelSelector → Bool
is_label_selector_empty selector =
    not (nonempty selector.match_labels) && not (nonempty selector.match_expressions)

abbrev pub resource_namespace : Option ResourceAttributes → String
resource_namespace none = ""
resource_namespace (some attr) = attr.namespace

-- How the loop ends: with a result, with a result and an error, or behind the last authorizer with
-- the numbers of those evaluated and skipped.
pub data Outcome : Type 0 where
  decided : EvaluationResult → Outcome
  unavailable : EvaluationResult → Text → Outcome
  undecided : ℕ → ℕ → Outcome

abbrev pub first_result : Option EvaluationResult → Outcome → Outcome
first_result (some result) later = decided result
first_result none later = later

-- The loop's continuations, by whether the authorizer's selector matches.
abbrev pub on_match : String → ℕ → ℕ → Fallible Bool → Outcome → Outcome → Outcome
on_match name evaluated skipped (failed error) skip go =
    unavailable
      (record {
        allowed = false;
        reason = plain "internal evaluation error";
        decision = "no-opinion";
        authorizer_name = "none";
        matched_rule = none;
        matched_field = "";
        evaluated_count = evaluated;
        skipped_count = skipped;
      })
      (sprintf "WebhookAuthorizer %q namespace selector: %w" (str name ∷ str error ∷ []))
on_match name evaluated skipped (ok false) skip go = skip
on_match name evaluated skipped (ok true) skip go = go

-- `namespace_matches` is the lookup of a namespace's labels and their test, a library's, whose
-- answers and errors are kept for the request; that its cache can be created is taken for granted.
module _ (namespace_matches : String → LabelSelector → Fallible Bool)
    (sar : SubjectAccessReview) where
  unfoldable pub applies : WebhookAuthorizer → Fallible Bool
  applies authorizer =
      let resource_ns = resource_namespace sar.resource_attributes in
      if is_label_selector_empty authorizer.spec.namespace_selector
      then ok true
      else if resource_ns == ""
      then ok false
      else namespace_matches resource_ns authorizer.spec.namespace_selector

  -- The loop of `evaluateSAR`.
  unfoldable pub evaluate_items : List WebhookAuthorizer → ℕ → ℕ → Outcome
  evaluate_items [] evaluated skipped = undecided evaluated skipped
  evaluate_items (authorizer ∷ items) evaluated skipped =
      let skip = evaluate_items items evaluated (skipped + 1) in
      let later = evaluate_items items (evaluated + 1) skipped in
      on_match authorizer.name evaluated skipped (applies authorizer) skip
        (first_result (judge sar authorizer (evaluated + 1) skipped) later)

-- ===== src/Authorize/Decide.antt =====
-- evaluateSAR of webhook_authorizer.go as a whole: the authorizers, then the bridge, then the live
-- check of denials.
pub mod Laws
use auth_operator.Base.{
  ℕ, ◌+◌, String, List, Option, none, some, Bool, true, false, [], ◌∷◌, Text, sprintf, plain, str,
}
use auth_operator.Kube.{
  LabelSelector, Selectors, PolicyRule, SubjectAccessReview, ResourceAttributes,
}
use auth_operator.Policy.Labels.{Fallible}
use auth_operator.Authorize.Evaluate.{
  WebhookAuthorizer, EvaluationResult, Outcome, decided, unavailable, undecided, resource_namespace,
  evaluate_items,
}
use auth_operator.Authorize.Bridge.{LiveReader, bridge_bind_definition}
use auth_operator.Authorize.Bridge.Scope.{ScopeCache, Discovery}
use auth_operator.Authorize.LiveDeny.{
  AuthorizerPage, LiveAnswer, checked, unchecked, live_bridge_deny,
}

-- What the decision reads: the libraries' tests, the index, the API server, discovery and the clock,
-- at the start and when a scope is stored.
pub record Surroundings : Type 0 where
  pub namespace_matches : String → LabelSelector → Fallible Bool
  pub live_matches : String → LabelSelector → Fallible Bool
  pub covers : List PolicyRule → List PolicyRule → Bool
  pub selectors : Selectors
  pub candidates : String → Fallible (List String)
  pub live_reader : Option LiveReader
  pub discovery : Option Discovery
  pub authorizer_pages : String → Fallible AuthorizerPage
  pub now : ℕ
  pub later : ℕ

-- A result, or an error.
pub data Evaluation : Type 0 where
  evaluated : EvaluationResult → Evaluation
  evaluation_error : Text → Evaluation

abbrev pub no_opinion : String → ℕ → ℕ → EvaluationResult
no_opinion reason count skipped = record {
  allowed = false;
  reason = plain reason;
  decision = "no-opinion";
  authorizer_name = "none";
  matched_rule = none;
  matched_field = "";
  evaluated_count = count;
  skipped_count = skipped;
}

abbrev pub bridge_grant : String → ℕ → ℕ → EvaluationResult
bridge_grant name count skipped = record {
  allowed = true;
  reason = sprintf "Access granted by BindDefinition %s" (str name ∷ []);
  decision = "allowed";
  authorizer_name = name;
  matched_rule = none;
  matched_field = "bindDefinition";
  evaluated_count = count;
  skipped_count = skipped;
}

abbrev pub add_counts : EvaluationResult → ℕ → ℕ → EvaluationResult
add_counts r count skipped = record {
  allowed = r.allowed;
  reason = r.reason;
  decision = r.decision;
  authorizer_name = r.authorizer_name;
  matched_rule = r.matched_rule;
  matched_field = r.matched_field;
  evaluated_count = r.evaluated_count + count;
  skipped_count = r.skipped_count + skipped;
}

-- The result behind a bridge that names a definition, by the live check.
unfoldable pub after_live_check : String → ℕ → ℕ → LiveAnswer → EvaluationResult
after_live_check name count skipped (unchecked error) =
    no_opinion "Access denied: bridge deny check unavailable" count skipped
after_live_check name count skipped (checked (some deny)) = add_counts deny count skipped
after_live_check name count skipped (checked none) = bridge_grant name count skipped

unfoldable pub after_bridge :
    Surroundings → SubjectAccessReview → ℕ → ℕ → Option String → EvaluationResult
after_bridge around sar count skipped none =
    no_opinion "Access denied: no matching rules" count skipped
after_bridge around sar count skipped (some name) = after_live_check name count skipped (
    live_bridge_deny around.live_matches sar (resource_namespace sar.resource_attributes)
      around.authorizer_pages)

-- The bridge is asked for a request on a resource only; without attributes it is as good as silent.
unfoldable pub after_items :
    Surroundings → ScopeCache → SubjectAccessReview → Outcome → Evaluation × ScopeCache
after_items around cache sar (decided result) = (evaluated result, cache)
after_items around cache sar (unavailable result error) = (evaluation_error error, cache)
after_items around cache sar (undecided count skipped) =
    let (named, cache') =
      bridge_bind_definition around.covers around.selectors around.candidates around.live_reader
        around.discovery around.now around.later cache sar in
    (evaluated (after_bridge around sar count skipped named), cache')

-- `evaluateSAR`, with the cache of scopes that it leaves.
unfoldable pub evaluate_sar :
    Surroundings
    → ScopeCache
    → SubjectAccessReview
    → List WebhookAuthorizer
    → Evaluation × ScopeCache
evaluate_sar around cache sar items =
    after_items around cache sar (evaluate_items around.namespace_matches sar items 0 0)

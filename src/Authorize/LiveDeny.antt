-- ===== src/Authorize/LiveDeny.antt =====
-- liveBridgeDeny of webhook_authorizer.go: the denials looked for, in what the API server has now,
-- before the bridge allows.
pub mod Laws
use auth_operator.Base.{
  ℕ, zero, suc, ◌+◌, String, List, Option, none, some, Bool, true, false, not, [], ◌∷◌, ◌==◌,
  length, leb, if◌then◌else◌, Text, sprintf, plain, str, num,
}
use auth_operator.Kube.{LabelSelector, SubjectAccessReview}
use auth_operator.Policy.Labels.{Fallible, ok, failed}
use auth_operator.Authorize.Principals.{principal_matches}
use auth_operator.Authorize.Evaluate.{
  WebhookAuthorizer, EvaluationResult, match_request_rule_with_field, is_label_selector_empty,
}

abbrev pub max_bridge_deny_authorizers : ℕ
max_bridge_deny_authorizers = 256

abbrev pub bridge_deny_page_size : ℕ
bridge_deny_page_size = 64

-- max_bridge_deny_authorizers / bridge_deny_page_size
abbrev pub bridge_deny_pages : ℕ
bridge_deny_pages = 4

-- A WebhookAuthorizerList: a page, and where the next one starts, "" behind the last.
pub record AuthorizerPage : Type 0 where
  pub items : List WebhookAuthorizer
  pub continuation : String

-- The denial found, if there is one, or an error.
pub data LiveAnswer : Type 0 where
  checked : Option EvaluationResult → LiveAnswer
  unchecked : Text → LiveAnswer

abbrev pub live_denial : String → ℕ → EvaluationResult
live_denial name rule = record {
  allowed = false;
  reason = sprintf "Access denied by WebhookAuthorizer %s" (str name ∷ []);
  decision = "denied";
  authorizer_name = name;
  matched_rule = some rule;
  matched_field = "deniedPrincipal";
  evaluated_count = 1;
  skipped_count = 0;
}

-- An authorizer with a denied principal that matches, by its selector's test and the rule found.
unfoldable pub on_denied : String → Fallible Bool → Option (ℕ × String) → LiveAnswer → LiveAnswer
on_denied name (failed error) rule rest =
    unchecked (sprintf "WebhookAuthorizer %q namespace selector: %w" (str name ∷ str error ∷ []))
on_denied name (ok false) rule rest = rest
on_denied name (ok true) none rest = rest
on_denied name (ok true) (some (i, matched_field)) rest = checked (some (live_denial name i))

-- `namespace_matches` is a library's lookup and test of labels, and `list` the page of at most 64
-- authorizers that the API server gives for a continuation.
module _ (namespace_matches : String → LabelSelector → Fallible Bool) (sar : SubjectAccessReview)
    (namespace : String) where
  unfoldable pub live_applies : WebhookAuthorizer → Fallible Bool
  live_applies item =
      if is_label_selector_empty item.spec.namespace_selector
      then ok true
      else namespace_matches namespace item.spec.namespace_selector

  -- The loop over the items of a page.
  unfoldable pub live_items : List WebhookAuthorizer → LiveAnswer
  live_items [] = checked none
  live_items (item ∷ items) =
      let rest = live_items items in
      if not (principal_matches sar item.spec.denied_principals)
      then rest
      else on_denied item.name (live_applies item) (match_request_rule_with_field item sar) rest

  abbrev pub next_page : String → LiveAnswer → LiveAnswer → LiveAnswer
  next_page continuation (unchecked error) rest = unchecked error
  next_page continuation (checked (some deny)) rest = checked (some deny)
  next_page continuation (checked none) rest = if continuation == "" then checked none else rest

  unfoldable pub on_page : Fallible AuthorizerPage → (String → LiveAnswer) → LiveAnswer
  on_page (failed error) rest =
      unchecked (sprintf "list live WebhookAuthorizers: %w" (str error ∷ []))
  on_page (ok page) rest =
      if leb (bridge_deny_page_size + 1) (length page.items)
      then unchecked (
          sprintf "live WebhookAuthorizer deny page exceeded %d objects"
            (num bridge_deny_page_size ∷ []))
      else next_page page.continuation (live_items page.items) (rest page.continuation)

  -- The loop over the pages, of which it reads as many as the first number.
  unfoldable pub live_pages : (String → Fallible AuthorizerPage) → ℕ → String → LiveAnswer
  live_pages list zero continuation = unchecked (
      sprintf "live WebhookAuthorizer deny check exceeded %d objects"
        (num max_bridge_deny_authorizers ∷ []))
  live_pages list (suc pages) continuation =
      on_page (list continuation) (λ next. live_pages list pages next)

  unfoldable pub live_bridge_deny : (String → Fallible AuthorizerPage) → LiveAnswer
  live_bridge_deny list = live_pages list bridge_deny_pages ""

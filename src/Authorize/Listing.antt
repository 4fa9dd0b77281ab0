-- ===== src/Authorize/Listing.antt =====
-- webhook_authorizer.go: the authorizers that a request is judged by, listed by the cache's index
-- and read again, and their order.
pub mod Laws
use auth_operator.Base.{
  ℕ, ◌+◌, pos, String, List, Option, none, some, Bool, true, false, not, ◌&&◌, ◌||◌, [], ◌∷◌, ◌++◌,
  ◌==◌, length, if◌then◌else◌, is_some, is_positive, same_int, nonempty, on_some, has_text, str_le,
}
use auth_operator.Kube.{
  Condition, Lookup, found, missing, unread, ResourceAttributes, SubjectAccessReview,
}
use auth_operator.Policy.Labels.{Fallible, ok, failed}
use auth_operator.Authorize.Evaluate.{
  WebhookAuthorizer, is_label_selector_empty, resource_namespace,
}

-- The values of the index ".spec.hasNamespaceSelector".
abbrev pub with_selector : String
with_selector = "true"

abbrev pub without_selector : String
without_selector = "false"

-- `WebhookAuthorizerHasNamespaceSelectorFunc`
unfoldable pub has_namespace_selector : WebhookAuthorizer → String
has_namespace_selector authorizer =
    if is_label_selector_empty authorizer.spec.namespace_selector
    then without_selector
    else with_selector

abbrev pub condition_true : Option Condition → Bool
condition_true none = false
condition_true (some c) = c.status == "True"

-- `find` is `FindStatusCondition` of k8s.io/apimachinery/pkg/api/meta.
module _ (find : List Condition → String → Option Condition) where
  -- `IsReady` of pkg/conditions.
  unfoldable pub is_ready : List Condition → Bool
  is_ready conditions = condition_true (find conditions "Ready")

  unfoldable pub authorizer_ready_for_evaluation : WebhookAuthorizer → Bool
  authorizer_ready_for_evaluation item =
      if same_int item.status.observed_generation (pos 0) && not (nonempty item.status.conditions)
      then true
      else if is_positive item.generation
          && (is_positive item.status.observed_generation
              && not (same_int item.status.observed_generation item.generation))
      then false
      else if nonempty item.status.conditions && not (is_ready item.status.conditions)
      then false
      else item.status.authorizer_configured

  -- An authorizer as read again, in front of those behind it; `none` is an error.
  abbrev pub keep_ready :
      Lookup WebhookAuthorizer → Option (List WebhookAuthorizer) → Option (List WebhookAuthorizer)
  keep_ready missing rest = rest
  keep_ready (unread error) rest = none
  keep_ready (found item) rest =
      if not (authorizer_ready_for_evaluation item)
      then rest
      else on_some rest (λ items. some (item ∷ items))

  -- The loop over the candidates, which tests them itself where the index was not used.
  unfoldable pub read_candidates :
      (String → Lookup WebhookAuthorizer)
      → Bool
      → String
      → List WebhookAuthorizer
      → Option (List WebhookAuthorizer)
  read_candidates get fallback wanted [] = some []
  read_candidates get fallback wanted (candidate ∷ candidates) =
      let rest = read_candidates get fallback wanted candidates in
      if fallback && not (has_namespace_selector candidate == wanted)
      then rest
      else keep_ready (get candidate.name) rest

  abbrev pub read_all :
      (String → Lookup WebhookAuthorizer)
      → String
      → Fallible (List WebhookAuthorizer)
      → Option (List WebhookAuthorizer)
  read_all get wanted (failed error) = none
  read_all get wanted (ok candidates) = read_candidates get true wanted candidates

  abbrev pub read_listed :
      (String → Lookup WebhookAuthorizer)
      → String
      → Fallible (List WebhookAuthorizer)
      → Fallible (List WebhookAuthorizer)
      → Option (List WebhookAuthorizer)
  read_listed get wanted all (ok candidates) = read_candidates get false wanted candidates
  read_listed get wanted all (failed error) =
      if has_text error "field label not supported"
        || (has_text error "Index with name" || has_text error "does not support field selectors")
      then read_all get wanted all
      else none

  -- `listAuthorizersByIndex`: `indexed` lists by the index, `all` without it, and `get` reads again.
  unfoldable pub list_authorizers_by_index :
      (String → Fallible (List WebhookAuthorizer))
      → Fallible (List WebhookAuthorizer)
      → (String → Lookup WebhookAuthorizer)
      → String
      → Option (List WebhookAuthorizer)
  list_authorizers_by_index indexed all get wanted = read_listed get wanted all (indexed wanted)

unfoldable pub count_total_rules : List WebhookAuthorizer → ℕ
count_total_rules [] = 0
count_total_rules (a ∷ authorizers) =
    length a.spec.resource_rules + length a.spec.non_resource_rules + count_total_rules authorizers

abbrev pub without_namespaces : List WebhookAuthorizer → List WebhookAuthorizer
without_namespaces [] = []
without_namespaces (item ∷ items) =
    let rest = without_namespaces items in
    if is_label_selector_empty item.spec.namespace_selector then item ∷ rest else rest

unfoldable pub select_items :
    SubjectAccessReview → List WebhookAuthorizer → List WebhookAuthorizer → List WebhookAuthorizer
select_items sar global scoped =
    if is_some sar.resource_attributes && not (resource_namespace sar.resource_attributes == "")
    then global ++ scoped
    else global ++ without_namespaces scoped

-- The sort by name; the names of authorizers, which belong to the cluster, are different.
unfoldable pub insert_by_name : WebhookAuthorizer → List WebhookAuthorizer → List WebhookAuthorizer
insert_by_name a [] = a ∷ []
insert_by_name a (b ∷ items) =
    let rest = insert_by_name a items in if str_le a.name b.name then a ∷ b ∷ items else b ∷ rest

unfoldable pub sort_by_name : List WebhookAuthorizer → List WebhookAuthorizer
sort_by_name [] = []
sort_by_name (a ∷ items) = insert_by_name a (sort_by_name items)

-- ===== src/Authorize/Decide/Laws.antt =====
-- What an allowed request rests on, across the authorizers, the bridge and the live check.
use auth_operator.Base.{
  ℕ, ◌≤◌, String, List, Option, none, some, Bool, true, false, [], ◌∷◌, length, ◌≡◌, refl, sym, ap,
  ◌∙◌, ◌⊎◌, inl, inr, All, Any,
}
use auth_operator.Kube.{ResourceAttributes, SubjectAccessReview}
use auth_operator.Authorize.Evaluate.{
  WebhookAuthorizer, EvaluationResult, Outcome, decided, unavailable, undecided, resource_namespace,
  evaluate_items,
}
use auth_operator.Authorize.Evaluate.Laws.{
  verdict, FirstTo, Denies, Grants, evaluate_items-refuses_iff, evaluate_items-Grants_iff,
}
use auth_operator.Authorize.Bridge.{LiveReader, bridge_with, bridge_bind_definition}
use auth_operator.Authorize.Bridge.Grant.{IsBridged, bridge_bind_definition-IsBridged}
use auth_operator.Authorize.Bridge.Scope.{ScopeCache, bridge_resource_namespaced}
use auth_operator.Authorize.LiveDeny.{LiveAnswer, checked, unchecked, live_bridge_deny}
use auth_operator.Authorize.LiveDeny.Laws.{
  Listed, LiveDenies, DeniedBy, live_bridge_deny-eq-none, live_bridge_deny-eq-some,
}
use auth_operator.Authorize.Decide.{
  Surroundings, Evaluation, evaluated, evaluation_error, after_live_check, after_bridge,
  after_items, evaluate_sar,
}

-- The bridge's grant: the request is on a resource, no authorizer decides it, the bridge names the
-- definition `name`, and of the authorizers that are there now, all listed, none denies it for a
-- denied principal.
pub record IsBridgeGrant (around : Surroundings) (cache : ScopeCache) (sar : SubjectAccessReview)
    (items : List WebhookAuthorizer) (name : String) : Type 0 where
  pub silent :
      (¬ FirstTo around.namespace_matches sar (Denies sar) items)
      × (¬ FirstTo around.namespace_matches sar (Grants sar) items)
  pub bridged :
      (attr : ResourceAttributes) × (live : LiveReader) × (sar.resource_attributes ≡ some attr)
      × (around.live_reader ≡ some live)
      × IsBridged around.covers around.selectors around.candidates live sar
          (bridge_resource_namespaced around.discovery around.now around.later cache attr).0
          attr
          name
  pub spared :
      (pages : ℕ) × (live_items : List WebhookAuthorizer) × Listed around.authorizer_pages "" pages
        live_items
      × (pages ≤ 4)
      × (length live_items ≤ 256)
      × All
          (λ a. ¬ LiveDenies around.live_matches sar (resource_namespace sar.resource_attributes) a)
          live_items

result_of : Evaluation → Option EvaluationResult
result_of (evaluated r) = some r
result_of (evaluation_error e) = none

after_live_check-allowed :
    (name : String) (count skipped : ℕ) (a : LiveAnswer)
    → ((r : EvaluationResult) → a ≡ checked (some r) → r.allowed ≡ false)
    → (after_live_check name count skipped a).allowed ≡ true
    → (a ≡ checked none) × ((after_live_check name count skipped a).authorizer_name ≡ name)
unfolding after_live_check
after_live_check-allowed name count skipped (unchecked e) denies h = cc
after_live_check-allowed name count skipped (checked none) denies h = (refl, refl)
after_live_check-allowed name count skipped (checked (some r)) denies h =
    let e : r.allowed ≡ false = denies r refl in cc

module _ (around : Surroundings) (cache : ScopeCache) (sar : SubjectAccessReview) where
  live_answer : LiveAnswer
  live_answer =
      live_bridge_deny around.live_matches sar (resource_namespace sar.resource_attributes)
        around.authorizer_pages

  -- The bridge as `evaluateSAR` calls it.
  bridge_of : Option LiveReader → Option ResourceAttributes → Option String
  bridge_of reader attributes =
      (bridge_with around.covers around.selectors around.candidates reader around.discovery
        around.now around.later cache sar attributes).0

  live_answer-eq-some :
      (r : EvaluationResult)
      → live_answer ≡ checked (some r)
      → (r.allowed ≡ false) × (r.decision ≡ "denied")
  unfolding live_answer
  live_answer-eq-some r h =
      let (page, reached, found) =
        live_bridge_deny-eq-some around.live_matches sar
          (resource_namespace sar.resource_attributes) around.authorizer_pages r h in
      any_DeniedBy page.items found
    where
      any_DeniedBy :
          (items : List WebhookAuthorizer)
          → Any
              (DeniedBy around.live_matches sar (resource_namespace sar.resource_attributes) r)
              items
          → (r.allowed ≡ false) × (r.decision ≡ "denied")
      any_DeniedBy [] z = absurd z
      any_DeniedBy (a ∷ items) (inl (denies, refused, decision, by)) = (refused, decision)
      any_DeniedBy (a ∷ items) (inr later) = any_DeniedBy items later

  bridge_of-some :
      (reader : Option LiveReader) (attributes : Option ResourceAttributes) {name : String}
      → bridge_of reader attributes ≡ some name
      → (attr : ResourceAttributes) × (live : LiveReader) × (attributes ≡ some attr)
        × (reader ≡ some live)
  unfolding bridge_of
  bridge_of-some none attributes h = cc
  bridge_of-some (some live) none h = cc
  bridge_of-some (some live) (some attr) h = (attr, live, refl, refl)

  bridge_of-IsBridged :
      (name : String)
      → bridge_of around.live_reader sar.resource_attributes ≡ some name
      → (attr : ResourceAttributes) × (live : LiveReader) × (sar.resource_attributes ≡ some attr)
        × (around.live_reader ≡ some live)
        × IsBridged around.covers around.selectors around.candidates live sar
            (bridge_resource_namespaced around.discovery around.now around.later cache attr).0
            attr
            name
  unfolding bridge_of bridge_bind_definition
  bridge_of-IsBridged name h =
      let (attr, live, resource, reader) =
        bridge_of-some around.live_reader sar.resource_attributes h in
      (
        attr,
        live,
        resource,
        reader,
        bridge_bind_definition-IsBridged around.covers around.selectors around.candidates live sar
            around.discovery around.now around.later cache attr name resource
            (ap (λ l. bridge_of l sar.resource_attributes) (sym reader) ∙ h),
      )

  after_bridge-allowed :
      (items : List WebhookAuthorizer) (count skipped : ℕ) (named : Option String)
      → ((¬ FirstTo around.namespace_matches sar (Denies sar) items)
          × (¬ FirstTo around.namespace_matches sar (Grants sar) items))
      → bridge_of around.live_reader sar.resource_attributes ≡ named
      → (after_bridge around sar count skipped named).allowed ≡ true
      → IsBridgeGrant around cache sar items
          (after_bridge around sar count skipped named).authorizer_name
  unfolding after_bridge live_answer
  after_bridge-allowed items count skipped none silent e h = cc
  after_bridge-allowed items count skipped (some name) silent e h =
      let (none_denies, by) =
        after_live_check-allowed name count skipped live_answer (λ r s. (live_answer-eq-some r s).0)
          h in
      rw by (record {
        silent = silent;
        bridged = bridge_of-IsBridged name e;
        spared =
            live_bridge_deny-eq-none around.live_matches sar
              (resource_namespace sar.resource_attributes) around.authorizer_pages none_denies;
      })

  after_items-allowed :
      (items : List WebhookAuthorizer) (o : Outcome) (r : EvaluationResult)
      → evaluate_items around.namespace_matches sar items 0 0 ≡ o
      → (after_items around cache sar o).0 ≡ evaluated r
      → r.allowed ≡ true
      → FirstTo around.namespace_matches sar (Grants sar) items
        ⊎ IsBridgeGrant around cache sar items r.authorizer_name
  unfolding after_items bridge_bind_definition bridge_of
  after_items-allowed items (decided d) r e h allowed =
      let same : d ≡ r = cc in
      inl (
        (evaluate_items-Grants_iff around.namespace_matches sar items 0 0).0
          (ap verdict e ∙ (ap some (ap (λ x. x.allowed) same) ∙ ap some allowed)))
  after_items-allowed items (unavailable d m) r e h allowed = cc
  after_items-allowed items (undecided count skipped) r e h allowed =
      let named = bridge_of around.live_reader sar.resource_attributes in
      let same : after_bridge around sar count skipped named ≡ r = cc in
      let silent = ap verdict e in
      inr (
        rw (← same) (
          after_bridge-allowed items count skipped named
            (
              λ d.
                  (let f : verdict (evaluate_items around.namespace_matches sar items 0 0)
                        ≡ some false =
                      (evaluate_items-refuses_iff around.namespace_matches sar items 0 0).1 d in
                    cc),
              λ g.
                  (let f : verdict (evaluate_items around.namespace_matches sar items 0 0)
                        ≡ some true =
                      (evaluate_items-Grants_iff around.namespace_matches sar items 0 0).1 g in
                    cc),
            )
            refl (ap (λ x. x.allowed) same ∙ allowed)))

-- Where the whole decision allows, the first authorizer with an opinion grants the request, or none
-- has an opinion and the bridge grants it by the definition that the result names: it is a request
-- on a resource that the definition will bind, and none of the authorizers that the API server
-- lists at that time, all of them read, denies it for a denied
-- principal.
pub evaluate_sar-allowed :
    (around : Surroundings) (cache : ScopeCache) (sar : SubjectAccessReview)
    (items : List WebhookAuthorizer) (r : EvaluationResult)
    → (evaluate_sar around cache sar items).0 ≡ evaluated r
    → r.allowed ≡ true
    → FirstTo around.namespace_matches sar (Grants sar) items
      ⊎ IsBridgeGrant around cache sar items r.authorizer_name
unfolding evaluate_sar
evaluate_sar-allowed around cache sar items r h allowed =
    after_items-allowed around cache sar items
      (evaluate_items around.namespace_matches sar items 0 0) r refl h allowed

after_items-verdict :
    (around : Surroundings) (cache : ScopeCache) (sar : SubjectAccessReview) (o : Outcome)
    (v : Bool)
    → verdict o ≡ some v
    → (r : EvaluationResult) × (after_items around cache sar o ≡ (evaluated r, cache))
      × (r.allowed ≡ v)
unfolding after_items
after_items-verdict around cache sar (decided r) v h = (r, refl, cc)
after_items-verdict around cache sar (unavailable r e) v h = cc
after_items-verdict around cache sar (undecided count skipped) v h = cc

-- Where the first authorizer with an opinion denies the request, the decision is a refusal, whatever
-- the bridge would say; the scopes are not looked up.
pub evaluate_sar-Denies :
    (around : Surroundings) (cache : ScopeCache) (sar : SubjectAccessReview)
    (items : List WebhookAuthorizer)
    → FirstTo around.namespace_matches sar (Denies sar) items
    → (r : EvaluationResult) × (evaluate_sar around cache sar items ≡ (evaluated r, cache))
      × (r.allowed ≡ false)
unfolding evaluate_sar
evaluate_sar-Denies around cache sar items first =
    after_items-verdict around cache sar (evaluate_items around.namespace_matches sar items 0 0)
      false ((evaluate_items-refuses_iff around.namespace_matches sar items 0 0).1 first)

-- ===== src/Authorize/Serve/Laws.antt =====
-- The answers of the handler: an allowed request has passed every step before, and every failure is
-- a denial.
use auth_operator.Base.{
  String, List, Option, none, some, true, false, ◌==◌, eq_iff, ◌≡◌, refl, ap, ◌⊎◌, inl, inr, arith,
  Bool-cases, plain, not, ◌&&◌, [], ◌≢◌, ◌↔◌, is_some, nonempty, nonempty_iff, if◌then◌else◌, Bool,
}
use auth_operator.Kube.{ResourceAttributes, NonResourceAttributes, SubjectAccessReview}
use auth_operator.Policy.Labels.{Fallible, ok, failed}
use auth_operator.Authorize.Evaluate.{WebhookAuthorizer, EvaluationResult}
use auth_operator.Authorize.Evaluate.Laws.{FirstTo, Grants}
use auth_operator.Authorize.Bridge.Scope.{ScopeCache}
use auth_operator.Authorize.Decide.{Evaluation, evaluated, evaluation_error, evaluate_sar}
use auth_operator.Authorize.Decide.Laws.{IsBridgeGrant, evaluate_sar-allowed}
use auth_operator.Authorize.Listing.{with_selector, without_selector, select_items, sort_by_name}
use auth_operator.Authorize.Authenticate.{authenticate_request}
use auth_operator.Authorize.Authenticate.Laws.{Authenticated, authenticate_request_iff}
use auth_operator.Authorize.Serve.{
  reason_empty_identity, reason_missing_attrs, reason_multiple_attrs, validate_sar,
  allow_subject_request, SubjectAccessReviewStatus, Reply, reply, server_error, denied_response,
  public_authorizer_reason, result_status, Request, Authorizer, list_for, after_evaluation,
  serve_listed, serve_decoded, serve_http,
}

-- Someone asks, a user or members of groups, either about a resource or about a path.
abbrev pub IsReview : SubjectAccessReview → Type 0
IsReview sar =
    ((sar.user ≢ "") ⊎ (sar.groups ≢ []))
    × ((((attr : ResourceAttributes) × (sar.resource_attributes ≡ some attr))
          × (sar.non_resource_attributes ≡ none))
        ⊎ ((sar.resource_attributes ≡ none)
            × ((attr : NonResourceAttributes) × (sar.non_resource_attributes ≡ some attr))))

one_of :
    {A B : Type 0} (a : Option A) (b : Option B)
    → (not (is_some a) && not (is_some b)) ≡ false
    → (is_some a && is_some b) ≡ false
    → (((x : A) × (a ≡ some x)) × (b ≡ none)) ⊎ ((a ≡ none) × ((y : B) × (b ≡ some y)))
one_of none none h k = cc
one_of none (some y) h k = inr (refl, (y, refl))
one_of (some x) none h k = inl ((x, refl), refl)
one_of (some x) (some y) h k = cc

no_reason :
    (nobody neither both : Bool)
    → ((if nobody
          then reason_empty_identity
          else if neither
          then reason_missing_attrs
          else if both
          then reason_multiple_attrs
          else "")
        == "")
      ≡ true
    → (nobody ≡ false) × (neither ≡ false) × (both ≡ false)
no_reason true neither both h = cc
no_reason false true both h = cc
no_reason false false true h = cc
no_reason false false false h = (refl, refl, refl)

validate_sar-IsReview : (sar : SubjectAccessReview) → (validate_sar sar == "") ≡ true → IsReview sar
unfolding validate_sar
validate_sar-IsReview sar h =
    let blank = eq_iff sar.user "" in
    let some_group = nonempty_iff sar.groups in
    let (somebody, either, once) =
      no_reason (sar.user == "" && not (nonempty sar.groups))
        (not (is_some sar.resource_attributes) && not (is_some sar.non_resource_attributes))
        (is_some sar.resource_attributes && is_some sar.non_resource_attributes) h in
    (
      ground (arith, blank, some_group),
      one_of sar.resource_attributes sar.non_resource_attributes either once,
    )

-- The evaluation of a review: the steps before it have been passed.
pub record Evaluates (wa : Authorizer) (cache : ScopeCache) (request : Request)
    (r : EvaluationResult) : Type 0 where
  pub sar : SubjectAccessReview
  pub global : List WebhookAuthorizer
  pub scoped : List WebhookAuthorizer
  pub authenticated : Authenticated wa.tokens request.authorization
  pub decoded : request.body ≡ ok sar
  pub valid : IsReview sar
  pub admitted : allow_subject_request wa.limiter sar ≡ true
  pub listed :
      (list_for wa without_selector ≡ some global) × (list_for wa with_selector ≡ some scoped)
  pub result :
      (evaluate_sar wa.around cache sar (sort_by_name (select_items sar global scoped))).0
      ≡ evaluated r

-- The status allows as the result does, denies where the decision is "denied", and has its public
-- reason.
abbrev pub IsStatusOf : EvaluationResult → SubjectAccessReviewStatus → Type 0
IsStatusOf r status =
    (status.allowed ≡ r.allowed)
    × ((status.denied ≡ true) ↔ (r.decision ≡ "denied"))
    × (status.reason ≡ public_authorizer_reason r)

-- The answer is the status of an evaluation, or the error 500 where that could not be written.
abbrev pub FromResult : Authorizer → Reply → EvaluationResult → Type 0
FromResult wa answer r =
    (status : SubjectAccessReviewStatus) × IsStatusOf r status
    × (((wa.marshals status ≡ true) × (answer ≡ reply status))
        ⊎ ((wa.marshals status ≡ false) × (answer ≡ server_error "internal evaluation error")))

-- The answer is a review's status that does not allow and that denies, for a reason.
abbrev pub IsDenial : Reply → Type 0
IsDenial answer =
    (status : SubjectAccessReviewStatus) × (answer ≡ reply status)
    × (status.allowed ≡ false)
    × (status.denied ≡ true)
    × ((reason : String) × (status.reason ≡ plain reason))

result_status-IsStatusOf : (r : EvaluationResult) → IsStatusOf r (result_status r)
unfolding result_status
result_status-IsStatusOf r = (refl, eq_iff r.decision "denied", refl)

denied_response-IsDenial :
    {answer : Reply} (reason : String) → answer ≡ denied_response reason → IsDenial answer
denied_response-IsDenial reason e = (
  record { allowed = false; denied = true; reason = plain reason },
  e,
  refl,
  refl,
  (reason, refl),
)

module _ (wa : Authorizer) (cache : ScopeCache) where
  after_evaluation-cases :
      (e : Evaluation × ScopeCache)
      → IsDenial (after_evaluation wa e).0
        ⊎ ((r : EvaluationResult) × (e.0 ≡ evaluated r) × FromResult wa (after_evaluation wa e).0 r)
  unfolding after_evaluation
  after_evaluation-cases (evaluation_error error, cache') =
      inl (denied_response-IsDenial "internal evaluation error" refl)
  after_evaluation-cases (evaluated r, cache') = inr (
    r,
    refl,
    (
      result_status r,
      result_status-IsStatusOf r,
      (elim (Bool-cases (wa.marshals (result_status r))) [
        | inl can ↦ inl (can, ground arith)
        | inr cannot ↦ inr (cannot, ground arith)
      ]),
    ),
  )

  serve_listed-cases :
      (sar : SubjectAccessReview) (global scoped : Option (List WebhookAuthorizer))
      → IsDenial (serve_listed wa cache sar global scoped).0
        ⊎ ((r : EvaluationResult) × (g : List WebhookAuthorizer) × (s : List WebhookAuthorizer)
            × (global ≡ some g)
            × (scoped ≡ some s)
            × ((evaluate_sar wa.around cache sar (sort_by_name (select_items sar g s))).0
                ≡ evaluated r)
            × FromResult wa (serve_listed wa cache sar global scoped).0 r)
  unfolding serve_listed
  serve_listed-cases sar none scoped =
      inl (denied_response-IsDenial "internal evaluation error" refl)
  serve_listed-cases sar (some g) none =
      inl (denied_response-IsDenial "internal evaluation error" refl)
  serve_listed-cases sar (some g) (some s) =
      elim (after_evaluation-cases
        (evaluate_sar wa.around cache sar (sort_by_name (select_items sar g s)))) [
          | inl denial ↦ inl denial
          | inr (r, result, answer) ↦ inr (r, g, s, refl, refl, result, answer)
        ]

  serve_decoded-cases :
      (request : Request) (body : Fallible SubjectAccessReview)
      → Authenticated wa.tokens request.authorization
      → request.body ≡ body
      → IsDenial (serve_decoded wa cache body).0
        ⊎ ((r : EvaluationResult) × Evaluates wa cache request r
            × FromResult wa (serve_decoded wa cache body).0 r)
  unfolding serve_decoded
  serve_decoded-cases request (failed error) authenticated e =
      inl (denied_response-IsDenial "invalid request body" refl)
  serve_decoded-cases request (ok sar) authenticated e =
      elim (Bool-cases (validate_sar sar == "")) [
        | inr malformed ↦ inl (denied_response-IsDenial (validate_sar sar) (ground arith))
        | inl valid ↦ elim (Bool-cases (allow_subject_request wa.limiter sar)) [
          | inr limited ↦ inl (denied_response-IsDenial "rate limit exceeded" (ground arith))
          | inl admitted ↦
              let same : (serve_decoded wa cache (ok sar)).0
                  ≡ (serve_listed wa cache sar (list_for wa without_selector)
                      (list_for wa with_selector)).0 =
                ground arith in
              elim (serve_listed-cases sar (list_for wa without_selector)
                (list_for wa with_selector)) [
                  | inl denial ↦ inl (rw same denial)
                  | inr (r, g, s, global, scoped, result, answer) ↦ inr (
                    r,
                    record {
                      sar = sar;
                      global = g;
                      scoped = s;
                      authenticated = authenticated;
                      decoded = e;
                      valid = validate_sar-IsReview sar valid;
                      admitted = admitted;
                      listed = (global, scoped);
                      result = result;
                    },
                    rw same answer,
                  )
                ]
        ]
      ]

  -- Every answer is a status that does not allow, denies and has a reason, or is what an evaluation
  -- gives on the authorizers listed and sorted, for an authenticated request whose body is decoded as
  -- a review, of someone and about either a resource or a path, within its rate. In the second case the
  -- answer is a status that allows as the result does and denies exactly where the decision is
  -- "denied", or the error 500 where that status cannot be encoded.
  pub serve_http-fails_closed :
      (request : Request)
      → IsDenial (serve_http wa cache request).0
        ⊎ ((r : EvaluationResult) × Evaluates wa cache request r
            × FromResult wa (serve_http wa cache request).0 r)
  unfolding serve_http
  serve_http-fails_closed request =
      elim (Bool-cases (authenticate_request wa.tokens request.authorization)) [
        | inr unknown ↦ inl (denied_response-IsDenial "unauthorized" (ground arith))
        | inl known ↦
            let same : (serve_http wa cache request).0 ≡ (serve_decoded wa cache request.body).0 =
              ground arith in
            elim (serve_decoded-cases request request.body
              ((authenticate_request_iff wa.tokens request.authorization).0 known) refl) [
                | inl denial ↦ inl (rw same denial)
                | inr (r, steps, answer) ↦ inr (r, steps, rw same answer)
              ]
      ]

IsAllowed : Reply → Type 0
IsAllowed (reply status) = status.allowed ≡ true
IsAllowed (server_error m) = ⊥

module _ (wa : Authorizer) (cache : ScopeCache) (request : Request) where
  FromResult-allowed :
      (answer : Reply) (r : EvaluationResult)
      → IsAllowed answer
      → FromResult wa answer r
      → r.allowed ≡ true
  unfolding IsAllowed
  FromResult-allowed (reply status) r allowed (s, (allows, denies, reason), inl (can, e)) =
      (let same : s ≡ status = cc in
        (let a : s.allowed ≡ status.allowed = ap (λ s. s.allowed) same in cc))
  FromResult-allowed (reply status) r allowed (s, status_of, inr (cannot, e)) = cc
  FromResult-allowed (server_error m) r allowed f = absurd allowed

  IsDenial-refuses : (answer : Reply) → IsAllowed answer → ¬ IsDenial answer
  unfolding IsAllowed
  IsDenial-refuses (reply status) allowed (s, e, refused, denied, reason) =
      let same : status ≡ s = cc in
      (let f : status.allowed ≡ s.allowed = ap (λ s. s.allowed) same in cc)
  IsDenial-refuses (server_error m) allowed d = absurd allowed

  -- An answer that allows comes from an evaluation, all the steps before it passed, in which the first
  -- of the authorizers with an opinion grants the request, or none has one and the bridge grants it.
  pub serve_http-allowed :
      (status : SubjectAccessReviewStatus)
      → (serve_http wa cache request).0 ≡ reply status
      → status.allowed ≡ true
      → (r : EvaluationResult) × (steps : Evaluates wa cache request r) × (let items =
            sort_by_name (select_items steps.sar steps.global steps.scoped) in
          FirstTo wa.around.namespace_matches steps.sar (Grants steps.sar) items
          ⊎ IsBridgeGrant wa.around cache steps.sar items r.authorizer_name)
  unfolding IsAllowed
  serve_http-allowed status answer allowed =
      let can : IsAllowed (serve_http wa cache request).0 = rw answer allowed in
      elim (serve_http-fails_closed wa cache request) [
        | inl denial ↦ absurd (IsDenial-refuses (serve_http wa cache request).0 can denial)
        | inr (r, steps, from) ↦ (
          r,
          steps,
          evaluate_sar-allowed wa.around cache steps.sar
              (sort_by_name (select_items steps.sar steps.global steps.scoped)) r steps.result
              (FromResult-allowed (serve_http wa cache request).0 r can from),
        )
      ]

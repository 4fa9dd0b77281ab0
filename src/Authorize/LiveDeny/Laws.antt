-- ===== src/Authorize/LiveDeny/Laws.antt =====
-- What the live check has read when it finds no denial, and what a denial comes from.
use auth_operator.Base.{
  ℕ, zero, suc, ◌+◌, ◌*◌, ◌≤◌, String, List, Option, none, some, Bool, true, false, [], ◌∷◌, ◌++◌,
  ◌==◌, eq_iff, eq-false_iff, length, length-append, leb, ◌≡◌, ◌≢◌, refl, ap, ◌⊎◌, inl, inr, arith,
  Any, All, All-append, Bool-cases, is_some,
}
use auth_operator.Kube.{LabelSelector, SubjectAccessReview}
use auth_operator.Policy.Labels.{Fallible, ok, failed}
use auth_operator.Authorize.Principals.{principal_matches}
use auth_operator.Authorize.Principals.Laws.{PrincipalMatches, principal_matches_iff}
use auth_operator.Authorize.Evaluate.{
  WebhookAuthorizer, EvaluationResult, match_request_rule_with_field,
}
use auth_operator.Authorize.Evaluate.Laws.{Covers, Covers-iff}
use auth_operator.Authorize.LiveDeny.{
  AuthorizerPage, LiveAnswer, checked, unchecked, live_denial, on_denied, live_applies, live_items,
  next_page, on_page, live_pages, live_bridge_deny,
}

-- The number of pages from a continuation to the end, and the authorizers on them.
pub data Listed (list : String → Fallible AuthorizerPage)
    : String → ℕ → List WebhookAuthorizer → Type 0 where
  last :
      (start : String) (page : AuthorizerPage)
      → list start ≡ ok page
      → page.continuation ≡ ""
      → Listed list start 1 page.items
  more :
      (start : String) (page : AuthorizerPage) (pages : ℕ) (items : List WebhookAuthorizer)
      → list start ≡ ok page
      → page.continuation ≢ ""
      → Listed list page.continuation pages items
      → Listed list start (suc pages) (page.items ++ items)

-- The page at a continuation that is reached from another.
pub data Reached (list : String → Fallible AuthorizerPage) : String → AuthorizerPage → Type 0 where
  here : (start : String) (page : AuthorizerPage) → list start ≡ ok page → Reached list start page
  beyond :
      (start : String) (page next : AuthorizerPage)
      → list start ≡ ok page
      → page.continuation ≢ ""
      → Reached list page.continuation next
      → Reached list start next

module _ (nm : String → LabelSelector → Fallible Bool) (sar : SubjectAccessReview)
    (namespace : String) where
  -- A denied principal matches, the selector takes the namespace in, and a rule covers the request.
  abbrev pub LiveDenies : WebhookAuthorizer → Type 0
  LiveDenies a =
      Any (λ p. PrincipalMatches p sar) a.spec.denied_principals
      × (live_applies nm sar namespace a ≡ ok true)
      × Covers sar a

  -- The denial that such an authorizer gives.
  abbrev pub DeniedBy : EvaluationResult → WebhookAuthorizer → Type 0
  DeniedBy r a =
      LiveDenies a × (r.allowed ≡ false) × (r.decision ≡ "denied") × (r.authorizer_name ≡ a.name)

is_checked : LiveAnswer → Bool
is_checked (checked o) = true
is_checked (unchecked e) = false

module _ (name : String) where
  on_denied-eq-none :
      (scope : Fallible Bool) (rule : Option (ℕ × String)) (rest : LiveAnswer)
      → on_denied name scope rule rest ≡ checked none
      → (rest ≡ checked none) × (¬ ((scope ≡ ok true) × (is_some rule ≡ true)))
  unfolding on_denied
  on_denied-eq-none (failed e) rule rest h = cc
  on_denied-eq-none (ok false) rule rest h = (h, λ t. (let e : ok false ≡ ok true = t.0 in cc))
  on_denied-eq-none (ok true) none rest h = (h, λ t. cc)
  on_denied-eq-none (ok true) (some i) rest h = cc

  on_denied-eq-some :
      (scope : Fallible Bool) (rule : Option (ℕ × String)) (rest : LiveAnswer)
      {r : EvaluationResult}
      → on_denied name scope rule rest ≡ checked (some r)
      → (rest ≡ checked (some r))
        ⊎ ((scope ≡ ok true)
            × (is_some rule ≡ true)
            × (r.allowed ≡ false)
            × (r.decision ≡ "denied")
            × (r.authorizer_name ≡ name))
  unfolding on_denied
  on_denied-eq-some (failed e) rule rest h = cc
  on_denied-eq-some (ok false) rule rest h = inl h
  on_denied-eq-some (ok true) none rest h = inl h
  on_denied-eq-some (ok true) (some (i, f)) rest {r} h =
      let e : live_denial name i ≡ r = cc in inr (rw (← e) (refl, refl, refl, refl, refl))

module _ (nm : String → LabelSelector → Fallible Bool) (sar : SubjectAccessReview)
    (namespace : String) where
  live_items-eq-none :
      (items : List WebhookAuthorizer)
      → live_items nm sar namespace items ≡ checked none
      → All (λ a. ¬ LiveDenies nm sar namespace a) items
  unfolding live_items
  live_items-eq-none [] h = tt
  live_items-eq-none (a ∷ items) h =
      let m = principal_matches_iff sar a.spec.denied_principals in
      elim (Bool-cases (principal_matches sar a.spec.denied_principals)) [
        | inl hit ↦
            let (rest, spared) =
              on_denied-eq-none a.name (live_applies nm sar namespace a)
                (match_request_rule_with_field a sar) (live_items nm sar namespace items)
                (ground arith) in
            (λ d. spared (d.1, (Covers-iff sar a).1 d.2), live_items-eq-none items rest)
        | inr miss ↦ (
          λ d. (let e : principal_matches sar a.spec.denied_principals ≡ true = m.1 d.0 in cc),
          live_items-eq-none items (ground arith),
        )
      ]

  live_items-eq-some :
      (items : List WebhookAuthorizer) {r : EvaluationResult}
      → live_items nm sar namespace items ≡ checked (some r)
      → Any (DeniedBy nm sar namespace r) items
  unfolding live_items
  live_items-eq-some [] h = cc
  live_items-eq-some (a ∷ items) {r} h =
      elim (Bool-cases (principal_matches sar a.spec.denied_principals)) [
        | inl hit ↦
            elim (on_denied-eq-some a.name (live_applies nm sar namespace a)
              (match_request_rule_with_field a sar) (live_items nm sar namespace items) {r = r}
              (ground arith)) [
                | inl rest ↦ inr (live_items-eq-some items rest)
                | inr (scope, rule, refused, decision, by) ↦ inl (
                  (
                    (principal_matches_iff sar a.spec.denied_principals).0 hit,
                    scope,
                    (Covers-iff sar a).0 rule,
                  ),
                  refused,
                  decision,
                  by,
                )
              ]
        | inr miss ↦ inr (live_items-eq-some items {r = r} (ground arith))
      ]

  next_page-eq-none :
      (next : String) (here rest : LiveAnswer)
      → next_page nm sar namespace next here rest ≡ checked none
      → (here ≡ checked none) × ((next ≡ "") ⊎ ((next ≢ "") × (rest ≡ checked none)))
  next_page-eq-none next (unchecked e) rest h = cc
  next_page-eq-none next (checked (some r)) rest h = cc
  next_page-eq-none next (checked none) rest h = elim (Bool-cases (next == "")) [
    | inl end ↦ (refl, inl ((eq_iff next "").0 end))
    | inr on ↦ (refl, inr ((eq-false_iff (next == "") (eq_iff next "")).0 on, ground arith))
  ]

  next_page-eq-some :
      (next : String) (here rest : LiveAnswer) {r : EvaluationResult}
      → next_page nm sar namespace next here rest ≡ checked (some r)
      → (here ≡ checked (some r)) ⊎ ((next ≢ "") × (rest ≡ checked (some r)))
  next_page-eq-some next (unchecked e) rest h = cc
  next_page-eq-some next (checked (some r)) rest h = inl h
  next_page-eq-some next (checked none) rest {r} h = elim (Bool-cases (next == "")) [
    | inl end ↦ (let e : checked none ≡ checked (some r) = ground arith in cc)
    | inr on ↦ inr ((eq-false_iff (next == "") (eq_iff next "")).0 on, ground arith)
  ]

  -- One turn of the loop over the pages.
  on_page-eq-none :
      (l : Fallible AuthorizerPage) (rest : String → LiveAnswer)
      → on_page nm sar namespace l rest ≡ checked none
      → (page : AuthorizerPage) × (l ≡ ok page)
        × (length page.items ≤ 64)
        × All (λ a. ¬ LiveDenies nm sar namespace a) page.items
        × ((page.continuation ≡ "")
            ⊎ ((page.continuation ≢ "") × (rest page.continuation ≡ checked none)))
  unfolding on_page
  on_page-eq-none (failed e) rest h = cc
  on_page-eq-none (ok page) rest h = elim (Bool-cases (leb 65 (length page.items))) [
    | inl big ↦ (let e = ap is_checked h in (let f : false ≡ true = ground arith in cc))
    | inr fits ↦
        let (items, on) =
          next_page-eq-none page.continuation (live_items nm sar namespace page.items)
            (rest page.continuation) (ground arith) in
        (page, refl, ground arith, live_items-eq-none page.items items, on)
  ]

  on_page-eq-some :
      (l : Fallible AuthorizerPage) (rest : String → LiveAnswer) {r : EvaluationResult}
      → on_page nm sar namespace l rest ≡ checked (some r)
      → (page : AuthorizerPage) × (l ≡ ok page)
        × (Any (DeniedBy nm sar namespace r) page.items
            ⊎ ((page.continuation ≢ "") × (rest page.continuation ≡ checked (some r))))
  unfolding on_page
  on_page-eq-some (failed e) rest h = cc
  on_page-eq-some (ok page) rest {r} h = elim (Bool-cases (leb 65 (length page.items))) [
    | inl big ↦ (let e = ap is_checked h in (let f : false ≡ true = ground arith in cc))
    | inr fits ↦
        elim (next_page-eq-some page.continuation (live_items nm sar namespace page.items)
          (rest page.continuation) {r = r} (ground arith)) [
            | inl items ↦ (page, refl, inl (live_items-eq-some page.items items))
            | inr on ↦ (page, refl, inr on)
          ]
  ]

  live_pages-eq-none :
      (list : String → Fallible AuthorizerPage) (n : ℕ) (start : String)
      → live_pages nm sar namespace list n start ≡ checked none
      → (pages : ℕ) × (items : List WebhookAuthorizer) × Listed list start pages items
        × (pages ≤ n)
        × (length items ≤ n * 64)
        × All (λ a. ¬ LiveDenies nm sar namespace a) items
  unfolding live_pages
  live_pages-eq-none list zero start h = cc
  live_pages-eq-none list (suc n) start h =
      let (page, read, size, spared, on) =
        on_page-eq-none (list start) (λ next. live_pages nm sar namespace list n next) h in
      elim on [
        | inl end ↦ (1, page.items, last start page read end, ground arith, ground arith, spared)
        | inr (go, rest) ↦
            let (pages, items, listed, few, bound, later) =
              live_pages-eq-none list n page.continuation rest in
            let e : length (page.items ++ items) ≡ length page.items + length items =
              length-append page.items items in
            (
              suc pages,
              page.items ++ items,
              more start page pages items read go listed,
              ground arith,
              ground arith,
              All-append (λ a. ¬ LiveDenies nm sar namespace a) page.items items spared later,
            )
      ]

  live_pages-eq-some :
      (list : String → Fallible AuthorizerPage) (n : ℕ) (start : String) {r : EvaluationResult}
      → live_pages nm sar namespace list n start ≡ checked (some r)
      → (page : AuthorizerPage) × Reached list start page
        × Any (DeniedBy nm sar namespace r) page.items
  unfolding live_pages
  live_pages-eq-some list zero start h = cc
  live_pages-eq-some list (suc n) start {r} h =
      let (page, read, on) =
        on_page-eq-some (list start) (λ next. live_pages nm sar namespace list n next) h in
      elim on [
        | inl found ↦ (page, here start page read, found)
        | inr (go, rest) ↦
            let (next, reached, found) = live_pages-eq-some list n page.continuation rest in
            (next, beyond start page next read go reached, found)
      ]

-- Where the live check finds no denial, the pages to the last are at most four, with at most 256
-- authorizers on them all, and none of these has a denied principal that matches, a selector that takes the
-- namespace in and a rule that covers the request.
pub live_bridge_deny-eq-none :
    (nm : String → LabelSelector → Fallible Bool) (sar : SubjectAccessReview) (namespace : String)
    (list : String → Fallible AuthorizerPage)
    → live_bridge_deny nm sar namespace list ≡ checked none
    → (pages : ℕ) × (items : List WebhookAuthorizer) × Listed list "" pages items
      × (pages ≤ 4)
      × (length items ≤ 256)
      × All (λ a. ¬ LiveDenies nm sar namespace a) items
unfolding live_bridge_deny
live_bridge_deny-eq-none nm sar namespace list h = live_pages-eq-none nm sar namespace list 4 "" h

-- A denial that the live check finds is that of an authorizer on a page it reached: it denies, in
-- the authorizer's name, and this one has a denied principal that matches, a selector that takes
-- the namespace in and a rule that covers the request.
pub live_bridge_deny-eq-some :
    (nm : String → LabelSelector → Fallible Bool) (sar : SubjectAccessReview) (namespace : String)
    (list : String → Fallible AuthorizerPage) (r : EvaluationResult)
    → live_bridge_deny nm sar namespace list ≡ checked (some r)
    → (page : AuthorizerPage) × Reached list "" page × Any (DeniedBy nm sar namespace r) page.items
unfolding live_bridge_deny
live_bridge_deny-eq-some nm sar namespace list r h = live_pages-eq-some nm sar namespace list 4 "" h

-- ===== src/Authorize/Listing/Laws.antt =====
-- What the listing gives: authorizers read again and ready, and the same ones without the index.
use auth_operator.Base.{
  has_text, pos, String, List, Option, none, some, Bool, true, false, not, ◌&&◌, ◌||◌, [], ◌∷◌,
  ◌==◌, nonempty, if◌then◌else◌, is_positive, same_int, ◌≡◌, refl, ◌⊎◌, inl, inr, arith, All, Any,
  Bool-cases, on_some-eq-some,
}
use auth_operator.Kube.{Condition, Lookup, found, missing, unread}
use auth_operator.Policy.Labels.{Fallible, ok, failed}
use auth_operator.Authorize.Evaluate.{WebhookAuthorizer}
use auth_operator.Authorize.Listing.{
  has_namespace_selector, is_ready, authorizer_ready_for_evaluation, keep_ready, read_candidates,
  read_listed, read_all, list_authorizers_by_index,
}

module _ (find : List Condition → String → Option Condition) where
  -- An authorizer that no controller has seen; or one whose status is of its generation, as far as
  -- both are set, whose condition Ready is true, if it has conditions, and which is configured.
  abbrev pub IsCurrent : WebhookAuthorizer → Type 0
  IsCurrent item =
      ((same_int item.status.observed_generation (pos 0) ≡ true)
        × (nonempty item.status.conditions ≡ false))
      ⊎ (((is_positive item.generation ≡ false)
            ⊎ (is_positive item.status.observed_generation ≡ false)
            ⊎ (same_int item.status.observed_generation item.generation ≡ true))
          × ((nonempty item.status.conditions ≡ false)
              ⊎ (is_ready find item.status.conditions ≡ true))
          × (item.status.authorizer_configured ≡ true))

  authorizer_ready_for_evaluation-IsCurrent :
      (item : WebhookAuthorizer) → authorizer_ready_for_evaluation find item ≡ true → IsCurrent item
  unfolding authorizer_ready_for_evaluation
  authorizer_ready_for_evaluation-IsCurrent item h = ground arith

  -- Read under the name of one of the candidates, and current.
  abbrev pub ReadAgain :
      (String → Lookup WebhookAuthorizer) → List WebhookAuthorizer → WebhookAuthorizer → Type 0
  ReadAgain get candidates item =
      Any (λ (c : WebhookAuthorizer). get c.name ≡ found item) candidates × IsCurrent item

  ReadAgain-later :
      (get : String → Lookup WebhookAuthorizer) (c : WebhookAuthorizer)
      (candidates items : List WebhookAuthorizer)
      → All (ReadAgain get candidates) items
      → All (ReadAgain get (c ∷ candidates)) items
  ReadAgain-later get c candidates [] h = tt
  ReadAgain-later get c candidates (item ∷ items) ((read, current), h) =
      ((inr read, current), ReadAgain-later get c candidates items h)

  keep_ready-ReadAgain :
      (get : String → Lookup WebhookAuthorizer) (c : WebhookAuthorizer)
      (candidates : List WebhookAuthorizer) (l : Lookup WebhookAuthorizer)
      (rest : Option (List WebhookAuthorizer)) {items : List WebhookAuthorizer}
      → get c.name ≡ l
      → keep_ready find l rest ≡ some items
      → ((later : List WebhookAuthorizer)
          → rest ≡ some later
          → All (ReadAgain get (c ∷ candidates)) later)
      → All (ReadAgain get (c ∷ candidates)) items
  keep_ready-ReadAgain get c candidates missing rest {items} e h later = later items h
  keep_ready-ReadAgain get c candidates (unread error) rest e h later = cc
  keep_ready-ReadAgain get c candidates (found item) rest {items} e h later =
      elim (Bool-cases (authorizer_ready_for_evaluation find item)) [
        | inr stale ↦ later items (ground arith)
        | inl ready ↦
            let (behind, read, same) =
              on_some-eq-some rest (λ later. some (item ∷ later)) {b = items} (ground arith) in
            let list : item ∷ behind ≡ items = cc in
            rw (← list)
              ((inl e, authorizer_ready_for_evaluation-IsCurrent item ready), later behind read)
      ]

  read_candidates-ReadAgain :
      (get : String → Lookup WebhookAuthorizer) (fallback : Bool) (wanted : String)
      (candidates : List WebhookAuthorizer) {items : List WebhookAuthorizer}
      → read_candidates find get fallback wanted candidates ≡ some items
      → All (ReadAgain get candidates) items
  unfolding read_candidates
  read_candidates-ReadAgain get fallback wanted [] {items} h =
      (let e : [] ≡ items = cc in rw (← e) tt)
  read_candidates-ReadAgain get fallback wanted (c ∷ candidates) {items} h =
      let behind : (later : List WebhookAuthorizer)
          → read_candidates find get fallback wanted candidates ≡ some later
          → All (ReadAgain get (c ∷ candidates)) later =
        λ later e.
          ReadAgain-later get c candidates later
            (read_candidates-ReadAgain get fallback wanted candidates {items = later} e) in
      elim (Bool-cases (fallback && not (has_namespace_selector c == wanted))) [
        | inl other ↦ behind items (ground arith)
        | inr same ↦
            keep_ready-ReadAgain get c candidates (get c.name)
              (read_candidates find get fallback wanted candidates) {items = items} refl
              (ground arith) behind
      ]

  -- The candidates come by the index, or are all there are where it gives an error.
  abbrev pub Candidates :
      Fallible (List WebhookAuthorizer)
      → Fallible (List WebhookAuthorizer)
      → List WebhookAuthorizer
      → Type 0
  Candidates listed all candidates =
      (listed ≡ ok candidates)
      ⊎ ((all ≡ ok candidates) × ((error : String) × (listed ≡ failed error)))

  read_all-ReadAgain :
      (get : String → Lookup WebhookAuthorizer) (wanted : String)
      (all : Fallible (List WebhookAuthorizer)) {items : List WebhookAuthorizer}
      → read_all find get wanted all ≡ some items
      → (candidates : List WebhookAuthorizer) × (all ≡ ok candidates)
        × All (ReadAgain get candidates) items
  read_all-ReadAgain get wanted (ok candidates) e =
      (candidates, refl, read_candidates-ReadAgain get true wanted candidates e)
  read_all-ReadAgain get wanted (failed error) e = cc

  read_listed-ReadAgain :
      (get : String → Lookup WebhookAuthorizer) (wanted : String)
      (all listed : Fallible (List WebhookAuthorizer)) {items : List WebhookAuthorizer}
      → read_listed find get wanted all listed ≡ some items
      → (candidates : List WebhookAuthorizer) × Candidates listed all candidates
        × All (ReadAgain get candidates) items
  read_listed-ReadAgain get wanted all (ok candidates) h =
      (candidates, inl refl, read_candidates-ReadAgain get false wanted candidates h)
  read_listed-ReadAgain get wanted all (failed error) {items} h =
      elim (Bool-cases (
        has_text error "field label not supported"
        || (has_text error "Index with name"
            || has_text error "does not support field selectors"))) [
              | inl no_index ↦
                  let (candidates, from, again) =
                    read_all-ReadAgain get wanted all {items = items} (ground arith) in
                  (candidates, inr (from, (error, refl)), again)
              | inr broken ↦ (let e : none ≡ some items = ground arith in cc)
            ]

  -- Every authorizer listed is what reading the name of a candidate gives, the candidates being those
  -- that the index lists, or all where it gives an error; and it is untouched by any controller, with
  -- no generation observed and no conditions, or else it is configured, the generation observed is its
  -- own where both are positive, and Ready is true where it has conditions.
  pub list_authorizers_by_index-ReadAgain :
      (indexed : String → Fallible (List WebhookAuthorizer))
      (all : Fallible (List WebhookAuthorizer)) (get : String → Lookup WebhookAuthorizer)
      (wanted : String) (items : List WebhookAuthorizer)
      → list_authorizers_by_index find indexed all get wanted ≡ some items
      → (candidates : List WebhookAuthorizer) × Candidates (indexed wanted) all candidates
        × All (ReadAgain get candidates) items
  unfolding list_authorizers_by_index
  list_authorizers_by_index-ReadAgain indexed all get wanted items h =
      read_listed-ReadAgain get wanted all (indexed wanted) h

-- The authorizers whose value in the index is the one wanted.
abbrev pub index_of : String → List WebhookAuthorizer → List WebhookAuthorizer
index_of wanted [] = []
index_of wanted (a ∷ authorizers) =
    let rest = index_of wanted authorizers in
    if has_namespace_selector a == wanted then a ∷ rest else rest

module _ (find : List Condition → String → Option Condition)
    (get : String → Lookup WebhookAuthorizer) (wanted : String) where
  read_candidates-index :
      (authorizers : List WebhookAuthorizer)
      → read_candidates find get true wanted authorizers
        ≡ read_candidates find get false wanted (index_of wanted authorizers)
  unfolding read_candidates
  read_candidates-index [] = refl
  read_candidates-index (a ∷ authorizers) =
      let rest = read_candidates-index authorizers in
      elim (Bool-cases (has_namespace_selector a == wanted)) [
        | inl same ↦ rw (same, rest) refl
        | inr other ↦ rw (other, rest) refl
      ]

  -- Where the cache has no such index, and says so, the list is the one that the index would give.
  pub list_authorizers_by_index-fallback :
      (indexed broken : String → Fallible (List WebhookAuthorizer))
      (authorizers : List WebhookAuthorizer) (error : String)
      → indexed wanted ≡ ok (index_of wanted authorizers)
      → broken wanted ≡ failed error
      → has_text error "Index with name" ≡ true
      → list_authorizers_by_index find broken (ok authorizers) get wanted
        ≡ list_authorizers_by_index find indexed (ok authorizers) get wanted
  unfolding list_authorizers_by_index
  list_authorizers_by_index-fallback indexed broken authorizers error i b told =
      rw (i, b) (let e = read_candidates-index authorizers in ground arith)

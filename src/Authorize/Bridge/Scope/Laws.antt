-- ===== src/Authorize/Bridge/Scope/Laws.antt =====
-- The memory of scopes says what discovery says.
use auth_operator.Base.{
  ℕ, ◌+◌, ◌≤◌, Option, none, some, Bool, true, [], ◌∷◌, eq_iff, ◌≡◌, refl, length, ◌↔◌, leb, ltb,
  arith, All, Bool-cases, inl, inr, ap, ◌∙◌,
}
use auth_operator.Kube.{ResourceAttributes}
use auth_operator.Authorize.Bridge.Scope.{
  max_bridge_scope_cache, GroupVersionResource, BridgeScopeEntry, ScopeCache, Discovery,
  same_resource, cached_scope, set_scope, discovered_scope, remember_scope, request_key,
  answer_from, bridge_resource_namespaced,
}

-- Every entry is what discovery says of its resource.
abbrev pub IsConsistent : Discovery → ScopeCache → Type 0
IsConsistent d =
    All (λ (e : GroupVersionResource × BridgeScopeEntry).
      discovered_scope d e.0 ≡ some e.1.namespaced)

same_resource-eq : (a b : GroupVersionResource) → same_resource a b ≡ true → a ≡ b
same_resource-eq a b h =
    ground (arith, eq_iff a.group b.group, eq_iff a.version b.version, eq_iff a.resource b.resource)

module _ (d : Discovery) (key : GroupVersionResource) where
  cached_scope-IsConsistent :
      (cache : ScopeCache) (e : BridgeScopeEntry)
      → IsConsistent d cache
      → cached_scope key cache ≡ some e
      → discovered_scope d key ≡ some e.namespaced
  unfolding cached_scope
  cached_scope-IsConsistent [] e c h = cc
  cached_scope-IsConsistent ((k, old) ∷ cache) e c h = elim (Bool-cases (same_resource k key)) [
    | inl same ↦ let same_key : k ≡ key = same_resource-eq k key same in ground arith
    | inr other ↦ cached_scope-IsConsistent cache e c.1 (ground arith)
  ]

  set_scope-IsConsistent :
      (entry : BridgeScopeEntry) (cache : ScopeCache)
      → discovered_scope d key ≡ some entry.namespaced
      → IsConsistent d cache
      → IsConsistent d (set_scope key entry cache)
  unfolding set_scope
  set_scope-IsConsistent entry [] h c = (h, tt)
  set_scope-IsConsistent entry ((k, old) ∷ cache) h c = elim (Bool-cases (same_resource k key)) [
    | inl same ↦ rw same (h, c.1)
    | inr other ↦ rw other (c.0, set_scope-IsConsistent entry cache h c.1)
  ]

length-set_scope :
    (key : GroupVersionResource) (entry : BridgeScopeEntry) (cache : ScopeCache)
    → length (set_scope key entry cache) ≤ length cache + 1
unfolding set_scope
length-set_scope key entry [] = omega arith
length-set_scope key entry ((k, old) ∷ cache) = ground (arith, length-set_scope key entry cache)

-- What is demanded of an answer and the cache left: the answer is discovery's, and the cache says
-- nothing else and keeps its bound.
pub record IsAnswer (d : Discovery) (key : GroupVersionResource) (r : Bool × ScopeCache)
    : Type 0 where
  pub namespaced : (r.0 ≡ true) ↔ (discovered_scope d key ≡ some true)
  pub consistent : IsConsistent d r.1
  pub bounded : length r.1 ≤ max_bridge_scope_cache

some-true_iff : {o : Option Bool} {b : Bool} → o ≡ some b → (b ≡ true) ↔ (o ≡ some true)
some-true_iff {o} {b} h = (λ e. h ∙ ap some e, λ e. cc)

stored-IsAnswer :
    (d : Discovery) (key : GroupVersionResource) (entry : BridgeScopeEntry) (cache : ScopeCache)
    → discovered_scope d key ≡ some entry.namespaced
    → IsConsistent d cache
    → length cache ≤ 255
    → IsAnswer d key (entry.namespaced, set_scope key entry cache)
stored-IsAnswer d key entry cache h c b = record {
  namespaced = some-true_iff h;
  consistent = set_scope-IsConsistent d key entry cache h c;
  bounded = omega (arith, length-set_scope key entry cache);
}

remember_scope-IsAnswer :
    (d : Discovery) (key : GroupVersionResource) (later : ℕ) (cache : ScopeCache) (o : Option Bool)
    → discovered_scope d key ≡ o
    → IsConsistent d cache
    → length cache ≤ max_bridge_scope_cache
    → IsAnswer d key (remember_scope later cache key o)
unfolding remember_scope
remember_scope-IsAnswer d key later cache none h c b = record {
  namespaced = (λ e. cc, λ e. cc);
  consistent = c;
  bounded = b;
}
remember_scope-IsAnswer d key later cache (some n) h c b =
    elim (Bool-cases (leb 256 (length cache))) [
      | inl full ↦ rw full (stored-IsAnswer d key _ [] h tt (omega arith))
      | inr room ↦ rw room (stored-IsAnswer d key _ cache h c (ground arith))
    ]

answer_from-IsAnswer :
    (d : Discovery) (key : GroupVersionResource) (now later : ℕ) (cache : ScopeCache)
    (o : Option BridgeScopeEntry)
    → cached_scope key cache ≡ o
    → IsConsistent d cache
    → length cache ≤ max_bridge_scope_cache
    → IsAnswer d key (answer_from d now later cache key o)
answer_from-IsAnswer d key now later cache none h c b =
    remember_scope-IsAnswer d key later cache _ refl c b
answer_from-IsAnswer d key now later cache (some e) h c b =
    elim (Bool-cases (ltb now e.expires_at)) [
      | inl fresh ↦ rw fresh record {
        namespaced = some-true_iff (cached_scope-IsConsistent d key cache e c h);
        consistent = c;
        bounded = b;
      }
      | inr stale ↦ rw stale (remember_scope-IsAnswer d key later cache _ refl c b)
    ]

-- With a cache in which every entry is what discovery says, at most as many as its bound,
-- `bridgeResourceNamespaced` says that a resource is namespaced exactly when discovery does, at
-- whatever times, and leaves such a cache.
pub bridge_resource_namespaced-IsAnswer :
    (d : Discovery) (now later : ℕ) (cache : ScopeCache) (attr : ResourceAttributes)
    → IsConsistent d cache
    → length cache ≤ max_bridge_scope_cache
    → IsAnswer d (request_key attr) (bridge_resource_namespaced (some d) now later cache attr)
unfolding bridge_resource_namespaced
bridge_resource_namespaced-IsAnswer d now later cache attr c b =
    answer_from-IsAnswer d (request_key attr) now later cache _ refl c b

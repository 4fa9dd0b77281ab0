-- ===== src/Authorize/Bridge/Scope.antt =====
-- bridgeResourceNamespaced of binddefinition_bridge.go: whether a resource is namespaced, as
-- discovery says, remembered for a while.
pub mod Laws
use Prim.Native.String
use auth_operator.Base.{
  ℕ, ◌+◌, ◌<◌, String, List, Option, none, some, Bool, true, false, not, ◌&&◌, ◌||◌, [], ◌∷◌, ◌==◌,
  eq_iff, ◌≡◌, refl, length, if◌then◌else◌, leb, ltb, arith, All, ◌⊎◌, inl, inr, Bool-cases, ap,
  ◌∙◌, sym,
}
use auth_operator.Kube.{ApiResource, ResourceAttributes}
use auth_operator.Policy.Labels.{Fallible, ok, failed}

abbrev pub max_bridge_scope_cache : ℕ
max_bridge_scope_cache = 256

-- bridgeScopeTTL, in nanoseconds.
abbrev pub bridge_scope_ttl : ℕ
bridge_scope_ttl = 5_000_000_000

-- schema.GroupVersionResource
pub record GroupVersionResource : Type 0 where
  pub group : String
  pub version : String
  pub resource : String

pub record BridgeScopeEntry : Type 0 where
  pub namespaced : Bool
  pub expires_at : ℕ

-- The map from resources to entries, one for each key.
abbrev pub ScopeCache : Type 0
ScopeCache = List (GroupVersionResource × BridgeScopeEntry)

-- The discovery client: the groups with their preferred versions, and the resources of a version.
pub record Discovery : Type 0 where
  pub server_groups : Fallible (List (String × String))
  pub server_resources : String → Fallible (List ApiResource)

abbrev pub same_resource : GroupVersionResource → GroupVersionResource → Bool
same_resource a b = a.group == b.group && (a.version == b.version && a.resource == b.resource)

unfoldable pub cached_scope : GroupVersionResource → ScopeCache → Option BridgeScopeEntry
cached_scope key [] = none
cached_scope key ((k, entry) ∷ cache) =
    if same_resource k key then some entry else cached_scope key cache

unfoldable pub set_scope : GroupVersionResource → BridgeScopeEntry → ScopeCache → ScopeCache
set_scope key entry [] = (key, entry) ∷ []
set_scope key entry ((k, old) ∷ cache) =
    if same_resource k key then (key, entry) ∷ cache else (k, old) ∷ set_scope key entry cache

-- The preferred version of a group, "" if it is not served.
unfoldable pub preferred_version : String → List (String × String) → String
preferred_version group [] = ""
preferred_version group ((name, version) ∷ groups) =
    if name == group then version else preferred_version group groups

abbrev pub group_version_of : String → Fallible (List (String × String)) → String
group_version_of group (failed error) = ""
group_version_of group (ok groups) = preferred_version group groups

-- The version to look the resource up in, "" for a failure.
unfoldable pub resource_version : Discovery → GroupVersionResource → String
resource_version discovery key =
    if not (key.version == "" || key.version == "*")
    then key.version
    else if key.group == ""
    then "v1"
    else group_version_of key.group discovery.server_groups

-- `schema.GroupVersion.String`
abbrev pub group_version_text : String → String → String
group_version_text group version =
    if group == "" then version else String.◌++◌ group (String.◌++◌ "/" version)

unfoldable pub find_scope : String → List ApiResource → Option Bool
find_scope name [] = none
find_scope name (r ∷ resources) =
    if r.name == name then some r.namespaced else find_scope name resources

abbrev pub scope_in : String → Fallible (List ApiResource) → Option Bool
scope_in name (failed error) = none
scope_in name (ok resources) = find_scope name resources

-- What discovery says of the resource, if it says anything.
unfoldable pub discovered_scope : Discovery → GroupVersionResource → Option Bool
discovered_scope discovery key =
    let version = resource_version discovery key in
    if version == ""
    then none
    else scope_in key.resource (discovery.server_resources (group_version_text key.group version))

-- The lookup behind the cache: a result that discovery gives is remembered until `later` and the
-- time to live, in a cache that is emptied first where it is full.
unfoldable pub remember_scope :
    ℕ → ScopeCache → GroupVersionResource → Option Bool → Bool × ScopeCache
remember_scope later cache key none = (false, cache)
remember_scope later cache key (some namespaced) = (
  namespaced,
  set_scope key (record { namespaced = namespaced; expires_at = later + bridge_scope_ttl })
      (if leb max_bridge_scope_cache (length cache) then [] else cache),
)

abbrev pub request_key : ResourceAttributes → GroupVersionResource
request_key attr = record { group = attr.group; version = attr.version; resource = attr.resource }

abbrev pub answer_from :
    Discovery
    → ℕ
    → ℕ
    → ScopeCache
    → GroupVersionResource
    → Option BridgeScopeEntry
    → Bool × ScopeCache
answer_from discovery now later cache key none =
    remember_scope later cache key (discovered_scope discovery key)
answer_from discovery now later cache key (some entry) =
    if ltb now entry.expires_at
    then (entry.namespaced, cache)
    else remember_scope later cache key (discovered_scope discovery key)

-- `now` is the time of the test of an entry, `later` that of storing one.
unfoldable pub bridge_resource_namespaced :
    Option Discovery → ℕ → ℕ → ScopeCache → ResourceAttributes → Bool × ScopeCache
bridge_resource_namespaced none now later cache attr = (false, cache)
bridge_resource_namespaced (some discovery) now later cache attr =
    answer_from discovery now later cache (request_key attr) (cached_scope (request_key attr) cache)

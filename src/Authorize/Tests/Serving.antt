-- ===== src/Authorize/Tests/Serving.antt =====
-- The properties of the bridge, of the whole decision and of the handler, applied to a request that
-- a definition will grant, and to one that an authorizer grants.
use auth_operator.Base.{
  ℕ, ◌≤◌, String, List, none, some, Bool, true, [], ◌∷◌, ◌==◌, length, any, Any, All, In, ◌≡◌, refl,
  ◌⊎◌, arith, if◌then◌else◌, cut_prefix, has_prefix, split, nonempty,
}
use auth_operator.Kube.{Selectors, Subject, PolicyRule, found, missing}
use auth_operator.Api.Impersonation.{is_impersonation_verb}
use auth_operator.Api.Definitions.{NamespaceBinding, BindDefinition}
use auth_operator.Policy.Labels.{Fallible, ok}
use auth_operator.Authorize.Rules.{
  matches_verb, matches_exact_or_all, matches_resource_rule, resource_key, resource_rule_matches,
  resource_rule_index, non_resource_rule_index,
}
use auth_operator.Authorize.Principals.{
  intersects, extra_value_matches, principal_extra_matches, parse_service_account_username,
  is_service_account_in_namespace, principal_matches_subject, principal_matches,
}
use auth_operator.Authorize.Evaluate.{
  WebhookAuthorizer, effective_impersonation_verb_policy, matches_impersonation_deny,
  match_request_rule_with_field, judge_by, judge, is_label_selector_empty, applies, evaluate_items,
}
use auth_operator.Authorize.Evaluate.Laws.{FirstTo, Grants}
use auth_operator.Authorize.Bridge.{
  LiveReader, is_namespace_active, bridge_eligible, subject_matches,
  bind_definition_subject_matches, valid_selectors, binding_selectors, bridge_selector_matches,
  request_keys, add_candidates, collect_candidates, bridge_candidates, bridge_rules_allow,
  check_roles, bridge_binding_allows, opted_in, bridge_selected, bridge_binding, bridge_bindings,
  bridge_candidate, bridge_definitions, bridge_in_namespace, bridge_named, bridge_bind_definition,
}
use auth_operator.Authorize.Bridge.Grant.{IsBridged, bridge_bind_definition-IsBridged}
use auth_operator.Authorize.Bridge.Index.{
  indexed_binding, bridge_subject_index, bridge_subject_index-meets_request_keys,
}
use auth_operator.Authorize.Bridge.Scope.{
  Discovery, request_key, cached_scope, resource_version, find_scope, discovered_scope,
  remember_scope, bridge_resource_namespaced,
}
use auth_operator.Authorize.Bridge.Scope.Laws.{IsAnswer, bridge_resource_namespaced-IsAnswer}
use auth_operator.Authorize.LiveDeny.{
  AuthorizerPage, checked, live_items, on_page, live_pages, live_bridge_deny,
}
use auth_operator.Authorize.LiveDeny.Laws.{Listed, LiveDenies, live_bridge_deny-eq-none}
use auth_operator.Authorize.Decide.{
  Surroundings, evaluated, bridge_grant, after_live_check, after_bridge, after_items, evaluate_sar,
}
use auth_operator.Authorize.Decide.Laws.{IsBridgeGrant, evaluate_sar-allowed}
use auth_operator.Authorize.Tests.{lookup, team, request, attributes}

abbrev selected_binding : NamespaceBinding
selected_binding = record {
  namespace = "";
  namespace_selector = record { match_labels = ("team", "x") ∷ []; match_expressions = [] } ∷ [];
  cluster_role_refs = "edit" ∷ [];
  role_refs = [];
  authorize_before_binding = true;
}

abbrev bob : Subject
bob = record {
  kind = "User";
  api_group = "rbac.authorization.k8s.io";
  name = "bob";
  namespace = "";
}

abbrev team_x : BindDefinition
team_x = record {
  name = "team-x";
  deletion_timestamp = none;
  spec = record {
    target_name = "team-x";
    subjects = bob ∷ [];
    external_service_account_refs = [];
    cluster_role_bindings = record { cluster_role_refs = [] };
    role_bindings = selected_binding ∷ [];
    automount_service_account_token = none;
  };
}

abbrev edit : PolicyRule
edit = record {
  verbs = "*" ∷ [];
  api_groups = "*" ∷ [];
  resources = "*" ∷ [];
  resource_names = [];
  non_resource_urls = [];
}

-- Rules cover a request, here, where there are some.
abbrev covers : List PolicyRule → List PolicyRule → Bool
covers rules requests = nonempty rules

abbrev selectors : Selectors
selectors = record {
  as_selector = λ s. some (λ labels. any (λ (kv : String × String). kv.1 == "x") labels);
}

abbrev reader : LiveReader
reader = record {
  get_bind_definition = λ name. if name == "team-x" then found team_x else missing;
  get_namespace = λ name.
      found
        (record { name = name; labels = ("team", "x") ∷ []; annotations = []; phase = "Active" });
  get_cluster_role = λ name. if name == "edit" then found (edit ∷ []) else missing;
  get_role = λ namespace name. missing;
}

abbrev pods : Discovery
pods = record {
  server_groups = ok [];
  server_resources = λ version. ok (
      record {
        name = "pods";
        namespaced = true;
        group = "";
        version = "v1";
        kind = "Pod";
        verbs = [];
      }
      ∷ []);
}

abbrev candidates : String → Fallible (List String)
candidates key = if key == "u:bob" then ok ("team-x" ∷ []) else ok []

-- One authorizer denies nothing, on one page.
abbrev pages : String → Fallible AuthorizerPage
pages start = ok (record { items = team ∷ []; continuation = "" })

abbrev pub around : Surroundings
around = record {
  namespace_matches = lookup;
  live_matches = lookup;
  covers = covers;
  selectors = selectors;
  candidates = candidates;
  live_reader = some reader;
  discovery = some pods;
  authorizer_pages = pages;
  now = 10;
  later = 20;
}

bridge_resource_namespaced-IsAnswer_example :
    IsAnswer pods
      (request_key (attributes "get" "x"))
      (bridge_resource_namespaced (some pods) 10 20 [] (attributes "get" "x"))
bridge_resource_namespaced-IsAnswer_example =
    bridge_resource_namespaced-IsAnswer pods 10 20 [] (attributes "get" "x") tt (ground arith)

by_bridge :
    (bridge_bind_definition covers selectors candidates
      (some reader)
      (some pods)
      10
      20
      []
      (request "bob" "get" "x")).0
    ≡ some "team-x"
unfolding bridge_bind_definition bridge_named bridge_in_namespace bridge_definitions
    bridge_candidate bridge_bindings bridge_binding bridge_selected bridge_binding_allows
    check_roles opted_in bridge_rules_allow bridge_candidates collect_candidates add_candidates
    request_keys bridge_selector_matches binding_selectors valid_selectors
    bind_definition_subject_matches subject_matches bridge_eligible is_namespace_active
    is_impersonation_verb has_prefix cut_prefix bridge_resource_namespaced cached_scope
    remember_scope discovered_scope resource_version find_scope
by_bridge = refl

bridge_bind_definition-IsBridged_example :
    IsBridged covers selectors candidates reader
      (request "bob" "get" "x")
      (bridge_resource_namespaced (some pods) 10 20 [] (attributes "get" "x")).0
      (attributes "get" "x")
      "team-x"
bridge_bind_definition-IsBridged_example =
    bridge_bind_definition-IsBridged covers selectors candidates reader (request "bob" "get" "x")
      (some pods) 10 20 [] (attributes "get" "x") "team-x" refl by_bridge

opted : any indexed_binding team_x.spec.role_bindings ≡ true
unfolding indexed_binding
opted = refl

bob_matches : bind_definition_subject_matches (request "bob" "get" "x") team_x.spec.subjects ≡ true
unfolding bind_definition_subject_matches subject_matches
bob_matches = refl

bridge_subject_index-meets_request_keys_example :
    Any (λ k. In k (request_keys (request "bob" "get" "x"))) (bridge_subject_index team_x)
bridge_subject_index-meets_request_keys_example =
    bridge_subject_index-meets_request_keys (request "bob" "get" "x") team_x refl opted bob_matches

no_denial : live_bridge_deny lookup (request "bob" "get" "x") "x" pages ≡ checked none
unfolding live_bridge_deny live_pages on_page live_items principal_matches
no_denial = refl

live_bridge_deny-eq-none_example :
    (n : ℕ) × (items : List WebhookAuthorizer) × Listed pages "" n items
    × (n ≤ 4)
    × (length items ≤ 256)
    × All (λ a. ¬ LiveDenies lookup (request "bob" "get" "x") "x" a) items
live_bridge_deny-eq-none_example =
    live_bridge_deny-eq-none lookup (request "bob" "get" "x") "x" pages no_denial

-- An authorizer for another, then the bridge.
granted :
    (evaluate_sar around [] (request "bob" "get" "x") (team ∷ [])).0
    ≡ evaluated (bridge_grant "team-x" 1 0)
unfolding evaluate_sar after_items after_bridge after_live_check evaluate_items applies
    is_label_selector_empty judge judge_by match_request_rule_with_field matches_impersonation_deny
    effective_impersonation_verb_policy principal_matches principal_matches_subject
    is_service_account_in_namespace parse_service_account_username principal_extra_matches
    extra_value_matches intersects non_resource_rule_index resource_rule_index resource_rule_matches
    resource_key matches_resource_rule matches_exact_or_all matches_verb split live_bridge_deny
    live_pages on_page live_items bridge_bind_definition bridge_named bridge_in_namespace
    bridge_definitions bridge_candidate bridge_bindings bridge_binding bridge_selected
    bridge_binding_allows check_roles opted_in bridge_rules_allow bridge_candidates
    collect_candidates add_candidates request_keys bridge_selector_matches binding_selectors
    valid_selectors bind_definition_subject_matches subject_matches bridge_eligible
    is_namespace_active is_impersonation_verb has_prefix cut_prefix bridge_resource_namespaced
    cached_scope remember_scope discovered_scope resource_version find_scope
granted = refl

evaluate_sar-allowed_example :
    FirstTo lookup (request "bob" "get" "x") (Grants (request "bob" "get" "x")) (team ∷ [])
    ⊎ IsBridgeGrant around [] (request "bob" "get" "x") (team ∷ []) "team-x"
evaluate_sar-allowed_example =
    evaluate_sar-allowed around [] (request "bob" "get" "x") (team ∷ []) (bridge_grant "team-x" 1 0)
      granted refl

-- ===== src/Kube.antt =====
-- The types of k8s.io/api and k8s.io/apimachinery that the program's own types hold, with the
-- fields that they document; and the one operation of label selectors that the program calls.
use auth_operator.Base.{ℤ, String, List, Option, none, some, Bool, ◌≡◌}

-- A `map[string]string`.
abbrev pub Labels : Type 0
Labels = List (String × String)

pub record Requirement : Type 0 where
  pub key : String
  pub operator : String
  pub values : List String

pub record LabelSelector : Type 0 where
  pub match_labels : Labels
  pub match_expressions : List Requirement

-- rbacv1.Subject
pub record Subject : Type 0 where
  pub kind : String
  pub api_group : String
  pub name : String
  pub namespace : String

-- rbacv1.PolicyRule
pub record PolicyRule : Type 0 where
  pub verbs : List String
  pub api_groups : List String
  pub resources : List String
  pub resource_names : List String
  pub non_resource_urls : List String

-- metav1.APIResource
pub record ApiResource : Type 0 where
  pub name : String
  pub namespaced : Bool
  pub group : String
  pub version : String
  pub kind : String
  pub verbs : List String

-- metav1.GroupVersionForDiscovery
pub record GroupVersion : Type 0 where
  pub group_version : String
  pub version : String

-- `metav1.LabelSelectorAsSelector` and the `Matches` of its result; `none` is its error.
pub record Selectors : Type 0 where
  pub as_selector : LabelSelector → Option (Labels → Bool)

-- authzv1.ResourceRule, NonResourceRule, ResourceAttributes and NonResourceAttributes
pub record ResourceRule : Type 0 where
  pub verbs : List String
  pub api_groups : List String
  pub resources : List String
  pub resource_names : List String

pub record NonResourceRule : Type 0 where
  pub verbs : List String
  pub non_resource_urls : List String

pub record ResourceAttributes : Type 0 where
  pub namespace : String
  pub verb : String
  pub group : String
  pub version : String
  pub resource : String
  pub subresource : String
  pub name : String

pub record NonResourceAttributes : Type 0 where
  pub path : String
  pub verb : String

-- authzv1.SubjectAccessReviewSpec; its map of extra values is a list of keys with their values.
pub record SubjectAccessReview : Type 0 where
  pub resource_attributes : Option ResourceAttributes
  pub non_resource_attributes : Option NonResourceAttributes
  pub user : String
  pub groups : List String
  pub extra : List (String × List String)
  pub uid : String

-- metav1.Condition; its times have no part in a decision.
pub record Condition : Type 0 where
  pub condition_type : String
  pub status : String
  pub observed_generation : ℤ
  pub reason : String
  pub message : String

-- corev1.Namespace
pub record Namespace : Type 0 where
  pub name : String
  pub labels : Labels
  pub annotations : Labels
  pub phase : String

-- The answer to reading one object: the object, that it is not found, or another error.
pub data Lookup {ℓ} (A : Type ℓ) : Type ℓ where
  found : A → Lookup A
  missing : Lookup A
  unread : (error : String) → Lookup A

abbrev pub found_only {ℓ} : {A : Type ℓ} → Lookup A → Option A
found_only (found a) = some a
found_only missing = none
found_only (unread error) = none

pub found_only-eq-some {ℓ} :
    {A : Type ℓ} (l : Lookup A) {a : A} → found_only l ≡ some a → l ≡ found a
found_only-eq-some (found b) h = cc
found_only-eq-some missing h = cc
found_only-eq-some (unread error) h = cc

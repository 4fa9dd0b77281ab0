-- ===== src/Authorize/Principals.antt =====
-- webhook_authorizer.go: which principals a request matches.
pub mod Laws
use auth_operator.Base.{
  String, List, Option, none, some, Bool, true, false, not, ◌&&◌, ◌||◌, [], ◌∷◌, ◌==◌, any, all,
  contains, nonempty, if◌then◌else◌, split,
}
use auth_operator.Kube.{SubjectAccessReview}

pub record PrincipalExtraMatch : Type 0 where
  pub key : String
  pub values : List String

pub record Principal : Type 0 where
  pub user : String
  pub groups : List String
  pub namespace : String
  pub uid : String
  pub extra : List PrincipalExtraMatch

unfoldable pub intersects : List String → List String → Bool
intersects slice1 slice2 = any (λ s. contains slice2 s) slice1

unfoldable pub extra_value_matches : List String → List String → Bool
extra_value_matches want got =
    any (λ pattern. if pattern == "*" then any (λ v. not (v == "")) got else contains got pattern)
      want

-- `extra[key]`
abbrev pub value_at : String → List (String × List String) → Option (List String)
value_at key [] = none
value_at key ((k, values) ∷ extra) =
    let rest = value_at key extra in if k == key then some values else rest

abbrev pub extra_matches_at : List String → Option (List String) → Bool
extra_matches_at want none = false
extra_matches_at want (some got) = extra_value_matches want got

unfoldable pub principal_extra_matches :
    List PrincipalExtraMatch → List (String × List String) → Bool
principal_extra_matches matchers extra =
    all (λ (m : PrincipalExtraMatch). extra_matches_at m.values (value_at m.key extra)) matchers

-- The parts of a user name of a service account.
abbrev pub account_of_parts : List String → Option (String × String)
account_of_parts (a ∷ b ∷ namespace ∷ name ∷ []) =
    if a == "system" && b == "serviceaccount" then some (namespace, name) else none
account_of_parts _ = none

unfoldable pub parse_service_account_username : String → Option (String × String)
parse_service_account_username user = account_of_parts (split user ":")

abbrev pub account_matches :
    Option (String × String) → Option (String × String) → String → String → Bool
account_matches none principal principal_user namespace = false
account_matches (some (user_namespace, user_name)) none principal_user namespace =
    if not (user_namespace == namespace) then false else principal_user == user_name
account_matches (some (user_namespace, user_name)) (some (principal_namespace, principal_name))
      principal_user namespace =
    if not (user_namespace == namespace)
    then false
    else principal_namespace == namespace && principal_name == user_name

unfoldable pub is_service_account_in_namespace : String → String → String → Bool
is_service_account_in_namespace user principal_user namespace =
    account_matches (parse_service_account_username user)
      (parse_service_account_username principal_user) principal_user namespace

unfoldable pub principal_matches_subject : Principal → SubjectAccessReview → Bool
principal_matches_subject principal sar =
    if principal.user == ""
      && (not (nonempty principal.groups)
          && (principal.uid == "" && not (nonempty principal.extra)))
    then false
    else if not (principal.uid == "") && not (principal.uid == sar.uid)
    then false
    else if not (principal_extra_matches principal.extra sar.extra)
    then false
    else if not (principal.namespace == "")
    then (if principal.user == "" || nonempty principal.groups
        then false
        else is_service_account_in_namespace sar.user principal.user principal.namespace)
    else if principal.user == "" && not (nonempty principal.groups)
    then true
    else if not (principal.user == "") && principal.user == sar.user
    then true
    else nonempty principal.groups && intersects sar.groups principal.groups

unfoldable pub principal_matches : SubjectAccessReview → List Principal → Bool
principal_matches sar principals = any (λ p. principal_matches_subject p sar) principals

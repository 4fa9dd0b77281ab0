-- ===== src/Authorize/Principals/Laws.antt =====
-- Which requests a principal stands for.
use auth_operator.Base.{
  String, List, Option, none, some, Bool, true, false, not, ◌&&◌, ◌||◌, [], ◌∷◌, ◌==◌, eq_iff, any,
  all, any_iff, contains_iff, nonempty, if◌then◌else◌, ◌≡◌, ◌≢◌, refl, ◌↔◌, ◌⊎◌, inl, inr, arith,
  Any, All, In, and_iff, nonempty-eq-false_iff, eq-false_iff,
}
use auth_operator.Kube.{SubjectAccessReview}
use auth_operator.Authorize.Principals.{
  PrincipalExtraMatch, Principal, intersects, extra_value_matches, value_at, extra_matches_at,
  principal_extra_matches, account_matches, parse_service_account_username,
  is_service_account_in_namespace, principal_matches_subject, principal_matches,
}

abbrev pub ValueMatches : List String → String → Type 0
ValueMatches got pattern =
    ((pattern ≡ "*") × Any (λ v. v ≢ "") got) ⊎ ((pattern ≢ "*") × In pattern got)

abbrev pub ExtraAt : List String → Option (List String) → Type 0
ExtraAt want none = ⊥
ExtraAt want (some got) = Any (ValueMatches got) want

-- Every matcher's key is there, with a value that one of the wanted ones stands for.
abbrev pub ExtraMatches : List PrincipalExtraMatch → List (String × List String) → Type 0
ExtraMatches matchers extra =
    All (λ (m : PrincipalExtraMatch). ExtraAt m.values (value_at m.key extra)) matchers

-- The user is the service account that the principal names, in the principal's namespace.
abbrev pub NamesAccount :
    Option (String × String) → Option (String × String) → String → String → Type 0
NamesAccount none principal principal_user namespace = ⊥
NamesAccount (some (user_namespace, user_name)) none principal_user namespace =
    (user_namespace ≡ namespace) × (principal_user ≡ user_name)
NamesAccount (some (user_namespace, user_name)) (some (principal_namespace, principal_name))
      principal_user namespace =
    (user_namespace ≡ namespace)
    × ((principal_namespace ≡ namespace) × (principal_name ≡ user_name))

-- The user or one of the groups, either suffices, where the principal names any; with a namespace,
-- the service account there that the user names.
abbrev pub IdentityMatches : Principal → SubjectAccessReview → Type 0
IdentityMatches principal sar =
    ((principal.namespace ≢ "")
      × ((principal.user ≢ "")
          × ((principal.groups ≡ [])
              × NamesAccount (parse_service_account_username sar.user)
                  (parse_service_account_username principal.user) principal.user
                  principal.namespace)))
    ⊎ ((principal.namespace ≡ "")
        × (((principal.user ≡ "") × (principal.groups ≡ []))
            ⊎ (((principal.user ≢ "") × (principal.user ≡ sar.user))
                ⊎ Any (λ g. In g principal.groups) sar.groups)))

-- The principal names something, and its UID, extra matchers and identity match the request.
abbrev pub PrincipalMatches : Principal → SubjectAccessReview → Type 0
PrincipalMatches principal sar =
    (¬ (
      (principal.user ≡ "")
      × ((principal.groups ≡ []) × ((principal.uid ≡ "") × (principal.extra ≡ [])))))
    × (((principal.uid ≡ "") ⊎ (principal.uid ≡ sar.uid))
        × (ExtraMatches principal.extra sar.extra × IdentityMatches principal sar))

all_iff {ℓ} :
    {A : Type ℓ} {P : A → Type 0} (p : A → Bool)
    → ((x : A) → (p x ≡ true) ↔ P x)
    → (xs : List A) → (all p xs ≡ true) ↔ All P xs
all_iff p h [] = (λ _. tt, λ _. refl)
all_iff p h (x ∷ xs) = and_iff _ _ (h x) (all_iff p h xs)

nonempty_value_iff :
    (got : List String) → (any (λ v. not (v == "")) got ≡ true) ↔ Any (λ v. v ≢ "") got
nonempty_value_iff got = any_iff _ (λ v. ground (arith, eq_iff v "")) got

extra_value_matches_iff :
    (want got : List String) → (extra_value_matches want got ≡ true) ↔ Any (ValueMatches got) want
unfolding extra_value_matches
extra_value_matches_iff want got =
    any_iff _ (λ p. ground (arith, eq_iff p "*", nonempty_value_iff got, contains_iff got p)) want

extra_matches_at_iff :
    (want : List String) (got : Option (List String))
    → (extra_matches_at want got ≡ true) ↔ ExtraAt want got
extra_matches_at_iff want none = ground arith
extra_matches_at_iff want (some got) = extra_value_matches_iff want got

principal_extra_matches_iff :
    (matchers : List PrincipalExtraMatch) (extra : List (String × List String))
    → (principal_extra_matches matchers extra ≡ true) ↔ ExtraMatches matchers extra
unfolding principal_extra_matches
principal_extra_matches_iff matchers extra =
    all_iff _ (λ (m : PrincipalExtraMatch). extra_matches_at_iff m.values (value_at m.key extra))
      matchers

account_matches_iff :
    (user principal : Option (String × String)) (principal_user namespace : String)
    → (account_matches user principal principal_user namespace ≡ true)
      ↔ NamesAccount user principal principal_user namespace
account_matches_iff none principal u n = ground arith
account_matches_iff (some (un, name)) none u n = ground (arith, eq_iff un n, eq_iff u name)
account_matches_iff (some (un, name)) (some (pn, pname)) u n =
    ground (arith, eq_iff un n, eq_iff pn n, eq_iff pname name)

intersects_iff : (xs ys : List String) → (intersects xs ys ≡ true) ↔ Any (λ s. In s ys) xs
unfolding intersects
intersects_iff xs ys = any_iff _ (λ s. contains_iff ys s) xs

-- The chain of tests, by what they decide.
by_tests :
    {U G I E X N S A J K : Type 0}
    (user groups uid extra same_uid extra_ok ns account same_user shared : Bool)
    → (user ≡ true) ↔ U
    → (groups ≡ false) ↔ G
    → (uid ≡ true) ↔ I
    → (extra ≡ false) ↔ E
    → (same_uid ≡ true) ↔ S
    → (extra_ok ≡ true) ↔ X
    → (ns ≡ true) ↔ N
    → (account ≡ true) ↔ A
    → (same_user ≡ true) ↔ J
    → ((groups && shared) ≡ true) ↔ K
    → ((if user && (not groups && (uid && not extra))
          then false
          else if not uid && not same_uid
          then false
          else if not extra_ok
          then false
          else if not ns
          then (if user || groups then false else account)
          else if user && not groups
          then true
          else if not user && same_user
          then true
          else groups && shared)
        ≡ true)
      ↔ ((¬ (U × (G × (I × E))))
          × ((I ⊎ S) × (X × (((¬ N) × ((¬ U) × (G × A))) ⊎ (N × ((U × G) ⊎ (((¬ U) × J) ⊎ K)))))))
by_tests user groups uid extra same_uid extra_ok ns account same_user shared u g i e s x n a j k =
    ground (arith, u, g, i, e, s, x, n, a, j, k, eq-false_iff user u, eq-false_iff ns n)

no_member : (xs : List String) → ¬ Any (λ (s : String). In s []) xs
no_member [] h = h
no_member (x ∷ xs) h = elim h [ inl n ↦ n | inr r ↦ no_member xs r ]

shares_group_iff :
    (groups named : List String)
    → ((nonempty named && intersects groups named) ≡ true) ↔ Any (λ g. In g named) groups
shares_group_iff groups [] = (λ e. cc, λ h. absurd (no_member groups h))
shares_group_iff groups (n ∷ named) = intersects_iff groups (n ∷ named)

-- `principalMatchesSubject` holds exactly when the principal names a user, groups, a UID or extra
-- values, and its UID, if any, its extra matchers and its identity match the request. The identity:
-- with a namespace, the principal has a user and no groups, and that user is the service account of
-- the namespace that asks; without one, its user or one of its groups is the request's, or it names
-- neither.
pub principal_matches_subject_iff :
    (principal : Principal) (sar : SubjectAccessReview)
    → (principal_matches_subject principal sar ≡ true) ↔ PrincipalMatches principal sar
unfolding principal_matches_subject is_service_account_in_namespace
principal_matches_subject_iff principal sar =
    by_tests _ _ _ _ _ _ _ _ _ _ (eq_iff principal.user "") (nonempty-eq-false_iff principal.groups)
      (eq_iff principal.uid "") (nonempty-eq-false_iff principal.extra)
      (eq_iff principal.uid sar.uid) (principal_extra_matches_iff principal.extra sar.extra)
      (eq_iff principal.namespace "")
      (account_matches_iff (parse_service_account_username sar.user)
        (parse_service_account_username principal.user) principal.user principal.namespace)
      (eq_iff principal.user sar.user) (shares_group_iff sar.groups principal.groups)

pub principal_matches_iff :
    (sar : SubjectAccessReview) (principals : List Principal)
    → (principal_matches sar principals ≡ true) ↔ Any (λ p. PrincipalMatches p sar) principals
unfolding principal_matches
principal_matches_iff sar principals =
    any_iff _ (λ p. principal_matches_subject_iff p sar) principals

-- ===== src/Base/Guards.antt =====
-- What the conditions of guards decide.
use mathlib.Core.Path.{◌≡◌, refl}
use mathlib.Core.Logic.{◌≢◌, ◌↔◌, ◌⊎◌, inl, inr}
use mathlib.Core.Bool.{Bool, true, false, not, ◌&&◌}
use mathlib.Core.List.{List, [], ◌∷◌}
use mathlib.Core.Option.{Option, none, some}
use auth_operator.Base.Tests.{if◌then◌else◌, eq-false_iff}
use auth_operator.Base.Lists.{nonempty}

pub empty_iff {ℓ} : {A : Type ℓ} (xs : List A) → (not (nonempty xs) ≡ true) ↔ (xs ≡ [])
empty_iff [] = (λ _. refl, λ _. refl)
empty_iff (x ∷ xs) = (λ e. cc, λ e. cc)

pub nonempty_iff {ℓ} : {A : Type ℓ} (xs : List A) → (nonempty xs ≡ true) ↔ (xs ≢ [])
nonempty_iff [] = (λ e. cc, λ n. absurd (n refl))
nonempty_iff (x ∷ xs) = (λ _ e. cc, λ _. refl)

pub nonempty-eq-false_iff {ℓ} : {A : Type ℓ} (xs : List A) → (nonempty xs ≡ false) ↔ (xs ≡ [])
nonempty-eq-false_iff [] = (λ _. refl, λ _. refl)
nonempty-eq-false_iff (x ∷ xs) = (λ e. cc, λ e. cc)

-- The code's tests, by the statements they decide.
module _ {P : Type 0} where
  pub not_iff : (a : Bool) → (a ≡ true) ↔ P → (not a ≡ false) ↔ P
  not_iff true p = (λ _. p.0 refl, λ _. refl)
  not_iff false p = (λ e. cc, λ x. (let e : false ≡ true = p.1 x in cc))

  pub either_not_iff : (a b : Bool) → (b ≡ true) ↔ P → ((not a && b) ≡ false) ↔ ((a ≡ true) ⊎ (¬ P))
  either_not_iff true b p = (λ _. inl refl, λ _. refl)
  either_not_iff false b p =
      let (f, g) = eq-false_iff b p in (λ e. inr (f e), λ h. elim h [ inl e ↦ cc | inr n ↦ g n ])

module _ {P Q : Type 0} where
  pub neither_iff :
      (a b : Bool) → (a ≡ true) ↔ P → (b ≡ true) ↔ Q → ((not a && not b) ≡ false) ↔ (P ⊎ Q)
  neither_iff true b p q = (λ _. inl (p.0 refl), λ _. refl)
  neither_iff false true p q = (λ _. inr (q.0 refl), λ _. refl)
  neither_iff false false p q = (
    λ e. cc,
    λ h. elim h [
      | inl x ↦ (let e : false ≡ true = p.1 x in cc)
      | inr y ↦ (let e : false ≡ true = q.1 y in cc)
    ],
  )

  pub unless_or_iff :
      (a b : Bool) → (a ≡ true) ↔ P → (b ≡ true) ↔ Q → ((a && not b) ≡ false) ↔ ((¬ P) ⊎ Q)
  unless_or_iff true true p q = (λ _. inr (q.0 refl), λ _. refl)
  unless_or_iff true false p q = (
    λ e. cc,
    λ h. elim h [ inl n ↦ absurd (n (p.0 refl)) | inr y ↦ (let e : false ≡ true = q.1 y in cc) ],
  )
  unless_or_iff false b p q = (λ _. inl (λ x. (let e : false ≡ true = p.1 x in cc)), λ _. refl)

  -- A check that a statement makes unnecessary.
  pub unless_iff {ℓ} :
      {A : Type ℓ} {check : List A} (a : Bool)
      → (a ≡ true) ↔ P
      → (check ≡ []) ↔ Q
      → ((if a then [] else check) ≡ []) ↔ (P ⊎ Q)
  unless_iff true p q = (λ _. inl (p.0 refl), λ _. refl)
  unless_iff false p q = (
    λ e. inr (q.0 e),
    λ h. elim h [ inl x ↦ (let e : false ≡ true = p.1 x in cc) | inr y ↦ q.1 y ],
  )

-- Checks in a row, each with an answer or `none`: a statement that ends them, one that stops them,
-- and the last.
module _ {A : Type 0} {P Q : Type 0} where
  pub skip_iff :
      (a : Bool) (next : Option A)
      → (a ≡ true) ↔ P
      → (next ≡ none) ↔ Q
      → ((if a then none else next) ≡ none) ↔ (P ⊎ Q)
  skip_iff true next p q = (λ _. inl (p.0 refl), λ _. refl)
  skip_iff false next p q = (
    λ e. inr (q.0 e),
    λ h. elim h [ inl x ↦ (let e : false ≡ true = p.1 x in cc) | inr y ↦ q.1 y ],
  )

  pub stop_iff :
      (a : Bool) (answer : A) (next : Option A)
      → (a ≡ true) ↔ P
      → (next ≡ none) ↔ Q
      → ((if a then some answer else next) ≡ none) ↔ ((¬ P) × Q)
  stop_iff true answer next p q = (λ e. cc, λ h. absurd (h.0 (p.0 refl)))
  stop_iff false answer next p q =
      (λ e. ((λ x. (let f : false ≡ true = p.1 x in cc)), q.0 e), λ h. q.1 h.1)

pub last_iff :
    {A : Type 0} {P : Type 0} (a : Bool) (answer : A)
    → (a ≡ true) ↔ P
    → ((if a then none else some answer) ≡ none) ↔ P
last_iff true answer p = (λ _. p.0 refl, λ _. refl)
last_iff false answer p = (λ e. cc, λ x. (let f : false ≡ true = p.1 x in cc))

pub not_false_iff : {P : Type 0} (a : Bool) → (a ≡ true) ↔ P → (not a ≡ true) ↔ (¬ P)
not_false_iff true p = (λ e. cc, λ n. absurd (n (p.0 refl)))
not_false_iff false p = (λ _ x. (let f : false ≡ true = p.1 x in cc), λ _. refl)

pub passes_iff :
    {A : Type 0} {P Q : Type 0} (a : Bool) (answer : A) (next : Option A)
    → (a ≡ false) ↔ P
    → (next ≡ none) ↔ Q
    → ((if a then some answer else next) ≡ none) ↔ (P × Q)
passes_iff true answer next p q = (λ e. cc, λ h. (let f : true ≡ false = p.1 h.0 in cc))
passes_iff false answer next p q = (λ e. (p.0 refl, q.0 e), λ h. q.1 h.1)

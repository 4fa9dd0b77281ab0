-- ===== src/Base/Lists.antt =====
-- Lists measured by native numbers, and the loops of Go over a slice.
use Prim.Native.Nat.{ℕ, suc, ◌+◌}
use mathlib.Core.Path.{◌≡◌, refl}
use mathlib.Core.Logic.{◌↔◌, ◌⊎◌}
use mathlib.Core.Bool.{Bool, true, false, ◌&&◌, ◌||◌}
use mathlib.Core.List.{List, [], ◌∷◌, ◌++◌}
use Prim.Native.String.{String}
use text.Mathlib.Text.{◌==◌}
use text.Mathlib.TextEquality.{eq_iff}
use native.Mathlib.Omega.{arith}
use auth_operator.Base.Tests.{eq-false_iff, or_iff}

module _ {ℓ} {A : Type ℓ} where
  abbrev pub length : List A → ℕ
  length [] = 0
  length (_ ∷ xs) = suc (length xs)

  -- `len(xs) > 0`
  abbrev pub nonempty : List A → Bool
  nonempty [] = false
  nonempty (_ ∷ _) = true

  -- `for _, x := range xs { if p(x) { return true } }; return false`
  abbrev pub any : (A → Bool) → List A → Bool
  any p [] = false
  any p (x ∷ xs) = p x || any p xs

  abbrev pub all : (A → Bool) → List A → Bool
  all p [] = true
  all p (x ∷ xs) = p x && all p xs

module _ {ℓ κ} {A : Type ℓ} (P : A → Type κ) where
  abbrev pub All : List A → Type κ
  All [] = Unit
  All (x ∷ xs) = P x × All xs

pub length-append {ℓ} : {A : Type ℓ} (xs ys : List A) → length (xs ++ ys) ≡ length xs + length ys
length-append [] ys = ground arith
length-append (x ∷ xs) ys =
    (let e : length (xs ++ ys) ≡ length xs + length ys = length-append xs ys in ground arith)

pub All-append {ℓ κ} :
    {A : Type ℓ} (P : A → Type κ) (xs ys : List A) → All P xs → All P ys → All P (xs ++ ys)
All-append P [] ys h k = k
All-append P (x ∷ xs) ys h k = (h.0, All-append P xs ys h.1 k)

module _ {ℓ} {A : Type ℓ} (P : A → Type 0) where
  abbrev pub Any : List A → Type 0
  Any [] = ⊥
  Any (x ∷ xs) = P x ⊎ Any xs

-- Membership, as a predicate by recursion.
abbrev pub In : {A : Type 0} → A → List A → Type 0
In a = Any (λ x. x ≡ a)

module _ {ℓ} {A : Type ℓ} {P : A → Type 0} (p : A → Bool) (h : (x : A) → (p x ≡ true) ↔ P x) where
  pub any_iff : (xs : List A) → (any p xs ≡ true) ↔ Any P xs
  any_iff [] = ((λ e. cc), (λ e. elim e [ ]))
  any_iff (x ∷ xs) = or_iff (p x) (any p xs) (h x) (any_iff xs)

  pub any-eq-false_iff : (xs : List A) → (any p xs ≡ false) ↔ All (λ x. ¬ P x) xs
  any-eq-false_iff [] = ((λ _. tt), (λ _. refl))
  any-eq-false_iff (x ∷ xs) =
      let (f, g) = eq-false_iff (p x) (h x) in
      let (f', g') = any-eq-false_iff xs in
      (
        λ e. (f (ground arith), f' (ground arith)),
        λ t. let a : p x ≡ false = g t.0 in let b : any p xs ≡ false = g' t.1 in ground arith,
      )

-- `slices.Contains(xs, s)`
abbrev pub contains : List String → String → Bool
contains xs s = any (λ x. x == s) xs

pub contains_iff : (xs : List String) (s : String) → (contains xs s ≡ true) ↔ In s xs
contains_iff xs s = any_iff _ (λ x. eq_iff x s) xs

pub contains-eq-false_iff : (xs : List String) (s : String) → (contains xs s ≡ false) ↔ (¬ In s xs)
contains-eq-false_iff xs s = eq-false_iff _ (contains_iff xs s)

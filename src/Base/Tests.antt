-- ===== src/Base/Tests.antt =====
-- Boolean tests, the conditional, Go's signed integers, and equivalences between statements.
use Prim.Native.Nat.{ℕ, ◌<◌, compare, Ordering}
use mathlib.Core.Path.{◌≡◌, refl}
use mathlib.Core.Logic.{◌↔◌, ◌⊎◌, inl, inr}
use mathlib.Core.Bool.{Bool, true, false, ◌&&◌, ◌||◌}
use mathlib.Core.Option.{Option, none, some}
use native.Mathlib.Omega.{arith}

abbrev pub ltb : ℕ → ℕ → Bool
ltb a b = elim (compare a b) [ Ordering.lt ↦ true | _ ↦ false ]

abbrev pub leb : ℕ → ℕ → Bool
leb a b = elim (compare a b) [ Ordering.gt ↦ false | _ ↦ true ]

abbrev pub eqb : ℕ → ℕ → Bool
eqb a b = elim (compare a b) [ Ordering.eq ↦ true | _ ↦ false ]

infix 1 if◌then◌else◌
abbrev pub if◌then◌else◌ {ℓ} : {A : Type ℓ} → Bool → A → A → A
if true then x else y = x
if false then x else y = y

pub Bool-cases : (b : Bool) → (b ≡ true) ⊎ (b ≡ false)
Bool-cases true = inl refl
Bool-cases false = inr refl

pub Option-cases {ℓ} : {A : Type ℓ} (o : Option A) → (o ≡ none) ⊎ ((a : A) × (o ≡ some a))
Option-cases none = inl refl
Option-cases (some a) = inr (a, refl)

abbrev pub is_some {ℓ} : {A : Type ℓ} → Option A → Bool
is_some none = false
is_some (some a) = true

-- A Go integer that may be negative; `negsuc n` is -(n + 1).
pub data ℤ : Type 0 where
  pos : ℕ → ℤ
  negsuc : ℕ → ℤ

-- `z > 0` and `a == b` for Go integers.
abbrev pub is_positive : ℤ → Bool
is_positive (pos n) = ltb 0 n
is_positive (negsuc n) = false

abbrev pub same_int : ℤ → ℤ → Bool
same_int (pos a) (pos b) = eqb a b
same_int (pos a) (negsuc b) = false
same_int (negsuc a) (pos b) = false
same_int (negsuc a) (negsuc b) = eqb a b

-- `count > limit` for a length `count`.
abbrev pub exceeds : ℕ → ℤ → Bool
exceeds count (pos limit) = ltb limit count
exceeds count (negsuc _) = true

-- The order that `exceeds` decides.
abbrev pub Exceeds : ℕ → ℤ → Type 0
Exceeds count (pos limit) = limit < count
Exceeds count (negsuc _) = Unit

pub exceeds-eq-false_iff : (n : ℕ) (z : ℤ) → (exceeds n z ≡ false) ↔ (¬ Exceeds n z)
exceeds-eq-false_iff n (pos m) = ground arith
exceeds-eq-false_iff n (negsuc m) = (λ e. cc, λ h. absurd (h tt))

-- A test whose truth is `P` fails exactly when `P` does.
pub eq-false_iff {ℓ} : {P : Type ℓ} (b : Bool) → (b ≡ true) ↔ P → (b ≡ false) ↔ (¬ P)
eq-false_iff true h = (λ e. cc, λ n. absurd (n (h.0 refl)))
eq-false_iff false h = (λ _ p. let e : false ≡ true = h.1 p in cc, λ _. refl)

module _ {ℓ κ} {P : Type ℓ} {Q : Type κ} (a b : Bool) where
  pub and_iff : (a ≡ true) ↔ P → (b ≡ true) ↔ Q → ((a && b) ≡ true) ↔ (P × Q)
  and_iff p q = (
    λ e. (p.0 (ground arith), q.0 (ground arith)),
    λ t. let x : a ≡ true = p.1 t.0 in let y : b ≡ true = q.1 t.1 in ground arith,
  )

  pub or_iff : (a ≡ true) ↔ P → (b ≡ true) ↔ Q → ((a || b) ≡ true) ↔ (P ⊎ Q)
  or_iff p q = (to a b p.0 q.0, from)
    where
      to : (a b : Bool) → (a ≡ true → P) → (b ≡ true → Q) → (a || b) ≡ true → P ⊎ Q
      to true b f g e = inl (f refl)
      to false b f g e = inr (g (ground arith))

      from : P ⊎ Q → (a || b) ≡ true
      from (inl x) = let e : a ≡ true = p.1 x in ground arith
      from (inr y) = let e : b ≡ true = q.1 y in ground arith

module _ {ℓ κ μ} {P : Type ℓ} {Q : Type κ} {R : Type μ} where
  pub iff_trans : P ↔ Q → Q ↔ R → P ↔ R
  iff_trans f g = (λ x. g.0 (f.0 x), λ z. f.1 (g.1 z))

  -- An alternative may be replaced by an equivalent one.
  pub or_right_iff : Q ↔ R → (P ⊎ Q) ↔ (P ⊎ R)
  or_right_iff g = (
    λ h. elim h [ inl x ↦ inl x | inr y ↦ inr (g.0 y) ],
    λ h. elim h [ inl x ↦ inl x | inr y ↦ inr (g.1 y) ],
  )

  pub and_right_iff : Q ↔ R → (P × Q) ↔ (P × R)
  and_right_iff g = ((λ h. (h.0, g.0 h.1)), (λ h. (h.0, g.1 h.1)))

-- `if a { return true }; return b`
pub if_true_iff {ℓ κ} :
    {P : Type ℓ} {Q : Type κ} (a b : Bool)
    → (a ≡ true) ↔ P
    → (b ≡ true) ↔ Q
    → ((if a then true else b) ≡ true) ↔ (P ⊎ Q)
if_true_iff true b p q = (λ _. inl (p.0 refl), λ _. refl)
if_true_iff false b p q =
    (λ e. inr (q.0 e), λ h. elim h [ inl x ↦ (let e : false ≡ true = p.1 x in cc) | inr y ↦ q.1 y ])

-- `if a { return false }; return b`
pub if_false_iff {ℓ κ} :
    {P : Type ℓ} {Q : Type κ} (a b : Bool)
    → (a ≡ false) ↔ P
    → (b ≡ true) ↔ Q
    → ((if a then false else b) ≡ true) ↔ (P × Q)
if_false_iff true b p q = (λ e. cc, λ h. let e : true ≡ false = p.1 h.0 in cc)
if_false_iff false b p q = (λ e. (p.0 refl, q.0 e), λ h. q.1 h.1)

-- `v, err := f(); if err != nil { return nil, err }`, and what follows.
abbrev pub on_some {ℓ κ} : {A : Type ℓ} {B : Type κ} → Option A → (A → Option B) → Option B
on_some none next = none
on_some (some a) next = next a

pub on_some-eq-some {ℓ κ} :
    {A : Type ℓ} {B : Type κ} (o : Option A) (next : A → Option B) {b : B}
    → on_some o next ≡ some b
    → (a : A) × (o ≡ some a) × (next a ≡ some b)
on_some-eq-some none next e = cc
on_some-eq-some (some a) next e = (a, refl, e)

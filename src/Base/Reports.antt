-- ===== src/Base/Reports.antt =====
-- Lists of findings: how a loop appends them, and when none is left.
use Prim.Native.Nat.{ℕ, ◌+◌}
use Prim.Native.String.{String}
use mathlib.Core.Path.{◌≡◌, refl}
use mathlib.Core.Logic.{◌↔◌}
use mathlib.Core.Bool.{Bool, true, false}
use mathlib.Core.List.{List, [], ◌∷◌, ◌++◌}
use auth_operator.Base.Tests.{if◌then◌else◌, ℤ}
use auth_operator.Base.Lists.{All}

-- An argument of a call of `fmt.Sprintf`.
pub data Arg : Type 0 where
  str : String → Arg
  num : ℕ → Arg
  int : ℤ → Arg

-- A call of `fmt.Sprintf`, left as its format and arguments.
pub record Text : Type 0 where
  pub format : String
  pub args : List Arg

abbrev pub plain : String → Text
plain s = record { format = s; args = [] }

abbrev pub sprintf : String → List Arg → Text
sprintf f xs = record { format = f; args = xs }

-- `fieldPath + ".name"` and `fmt.Sprintf("%s (resolved: %s)", fieldPath, name)`: since the new
-- format begins with the old text, the calls merge into one.
abbrev pub extend : Text → String → List Arg → Text
extend t f xs = record { format = Prim.Native.String.◌++◌ t.format f; args = t.args ++ xs }

module _ {ℓ} {A : Type ℓ} where
  -- `if b { out = append(out, a) }`
  abbrev pub report : Bool → A → List A
  report b a = if b then a ∷ [] else []

  pub report-eq-nil_iff : (b : Bool) (a : A) → (report b a ≡ []) ↔ (b ≡ false)
  report-eq-nil_iff true a = ((λ e. cc), (λ e. cc))
  report-eq-nil_iff false a = ((λ e. refl), (λ e. refl))

  pub append-eq-nil_iff {κ μ} :
      {P : Type κ} {Q : Type μ} {xs ys : List A}
      → (xs ≡ []) ↔ P
      → (ys ≡ []) ↔ Q
      → ((xs ++ ys) ≡ []) ↔ (P × Q)
  append-eq-nil_iff {P} {Q} {xs} {ys} p q =
      (λ e. (p.0 (left xs e), q.0 (right xs e)), from xs p.1 q.1)
    where
      left : (xs : List A) → (xs ++ ys) ≡ [] → xs ≡ []
      left [] e = refl
      left (x ∷ xs) e = cc

      right : (xs : List A) → (xs ++ ys) ≡ [] → ys ≡ []
      right [] e = e
      right (x ∷ xs) e = cc

      from : (xs : List A) → (P → xs ≡ []) → (Q → ys ≡ []) → P × Q → (xs ++ ys) ≡ []
      from [] f g t = g t.1
      from (x ∷ xs) f g t = let e : (x ∷ xs) ≡ [] = f t.0 in cc

module _ {ℓ} {A : Type ℓ} where
  -- Two reports in front of two loops, each loop taken with its own report.
  pub regrouped-eq-nil_iff {κ μ} :
      {P : Type κ} {Q : Type μ} (a b c d : List A)
      → ((a ++ c) ≡ []) ↔ P
      → ((b ++ d) ≡ []) ↔ Q
      → ((a ++ (b ++ (c ++ d))) ≡ []) ↔ (P × Q)
  regrouped-eq-nil_iff a b c d p q = (
    λ e. let (h, (k, (l, m))) = parts.0 e in (p.0 (front.1 (h, l)), q.0 (back.1 (k, m))),
    λ t.
        let (h, l) = front.0 (p.1 t.0) in let (k, m) = back.0 (q.1 t.1) in parts.1 (h, (k, (l, m))),
  )
    where
      same : (xs : List A) → (xs ≡ []) ↔ (xs ≡ [])
      same xs = ((λ e. e), (λ e. e))

      parts : ((a ++ (b ++ (c ++ d))) ≡ []) ↔ ((a ≡ []) × ((b ≡ []) × ((c ≡ []) × (d ≡ []))))
      parts =
          append-eq-nil_iff (same a)
            (append-eq-nil_iff (same b) (append-eq-nil_iff (same c) (same d)))

      front : ((a ++ c) ≡ []) ↔ ((a ≡ []) × (c ≡ []))
      front = append-eq-nil_iff (same a) (same c)

      back : ((b ++ d) ≡ []) ↔ ((b ≡ []) × (d ≡ []))
      back = append-eq-nil_iff (same b) (same d)

module _ {ℓ κ} {A : Type ℓ} {B : Type κ} where
  -- `for i, x := range xs { out = append(out, body(i, x)...) }`, from index `i` on.
  abbrev pub each_from : ℕ → (ℕ → A → List B) → List A → List B
  each_from i body [] = []
  each_from i body (x ∷ xs) = body i x ++ each_from (i + 1) body xs

  abbrev pub each : (ℕ → A → List B) → List A → List B
  each body xs = each_from 0 body xs

  pub each_from-eq-nil_iff {μ} :
      {P : A → Type μ} (body : ℕ → A → List B)
      → ((i : ℕ) (x : A) → (body i x ≡ []) ↔ P x)
      → (i : ℕ) (xs : List A) → (each_from i body xs ≡ []) ↔ All P xs
  each_from-eq-nil_iff body h i [] = ((λ _. tt), (λ _. refl))
  each_from-eq-nil_iff body h i (x ∷ xs) =
      append-eq-nil_iff (h i x) (each_from-eq-nil_iff body h (i + 1) xs)

  pub each-eq-nil_iff {μ} :
      {P : A → Type μ} (body : ℕ → A → List B)
      → ((i : ℕ) (x : A) → (body i x ≡ []) ↔ P x)
      → (xs : List A) → (each body xs ≡ []) ↔ All P xs
  each-eq-nil_iff body h xs = each_from-eq-nil_iff body h 0 xs

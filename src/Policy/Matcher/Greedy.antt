-- ===== src/Policy/Matcher/Greedy.antt =====
-- The leftmost choice of the middle parts loses no match.
use Prim.Native.Nat.{◌≤◌}
use Prim.Native.String.{[], ◌∷◌, ◌++◌, count}
use text.Mathlib.TextLemmas.{
  nil-append, cons-append, append_assoc, tail-eq_of_cons-eq, length-cons, length-nil, length-append,
  nil≢cons,
}
use text.Mathlib.TextEquality.{Char-path}
use text.Mathlib.TextPositions.{eq_refl}
use auth_operator.Base.{
  String, Char, code, ◌≡◌, ◌≢◌, refl, sym, ap, ◌∙◌, arith, Option, some, cut_prefix, cut_suffix,
  cut, Bool-cases, Option-cases, eqb, inl, inr, ◌==◌, eq_iff, ◌↔◌, true, List, [], ◌∷◌,
}
use auth_operator.Policy.Matcher.{match_middle}

pub cut_prefix-eq-some : (s p : String) {r : String} → cut_prefix s p ≡ some r → s ≡ p ++ r
unfolding cut_prefix
cut_prefix-eq-some s [] e = rw nil-append (ground arith)
cut_prefix-eq-some [] (c ∷ p) e = cc
cut_prefix-eq-some (x ∷ s) (c ∷ p) e = elim (Bool-cases (eqb (code x) (code c))) [
  | inl same ↦
      let h : x ≡ c = Char-path x c (ground arith) in
      rw (cons-append, ← h) (ap (λ t. x ∷ t) (cut_prefix-eq-some s p (ground arith)))
  | inr other ↦ ground arith
]

pub cut_prefix-append : (p r : String) → cut_prefix (p ++ r) p ≡ some r
unfolding cut_prefix
cut_prefix-append [] r = rw nil-append refl
cut_prefix-append (c ∷ p) r = rw cons-append (ground (arith, cut_prefix-append p r))

-- Two ways of cutting one text: the longer front contains the shorter one.
two_cuts : (x y z w : String) → x ++ y ≡ z ++ w → count x ≤ count z → (c : String) × (y ≡ c ++ w)
two_cuts [] y z w e h = (z, sym (nil-append y) ∙ e)
two_cuts (a ∷ x) y [] w e h = absurd (omega (arith, length-cons a x, length-nil))
two_cuts (a ∷ x) y (b ∷ z) w e h =
    two_cuts x y z w (tail-eq_of_cons-eq (sym (cons-append a x y) ∙ e ∙ cons-append b z w))
      (omega (arith, length-cons a x, length-cons b z))

pub cut_of_prefix :
    (s sep : String) {r : String} → cut_prefix s sep ≡ some r → cut s sep ≡ some ("", r)
unfolding cut
cut_of_prefix [] sep e = rw e
cut_of_prefix (c ∷ s) sep e = rw e

-- The rest behind the leftmost occurrence ends in the rest behind any occurrence.
pub cut_leftmost :
    (s sep front rest : String)
    → s ≡ front ++ (sep ++ rest)
    → (a b c : String) × (cut s sep ≡ some (a, b)) × (b ≡ c ++ rest)
unfolding cut
cut_leftmost s sep [] rest e =
    let here : cut_prefix s sep ≡ some rest = rw (e, nil-append) (cut_prefix-append sep rest) in
    ("", rest, "", cut_of_prefix s sep here, sym (nil-append rest))
cut_leftmost [] sep (d ∷ front) rest e = absurd (nil≢cons (e ∙ cons-append d front (sep ++ rest)))
cut_leftmost (x ∷ s) sep (d ∷ front) rest e = elim (Option-cases (cut_prefix (x ∷ s) sep)) [
  | inl missed ↦
      let tail = tail-eq_of_cons-eq (e ∙ cons-append d front (sep ++ rest)) in
      let (a, b, c, found, ends) = cut_leftmost s sep front rest tail in
      (x ∷ a, b, c, rw (missed, found), ends)
  | inr (after, here) ↦
      let (c, ends) =
        two_cuts sep after ((d ∷ front) ++ sep) rest
          (sym (cut_prefix-eq-some (x ∷ s) sep here) ∙ e ∙ sym (append_assoc (d ∷ front) sep rest))
          (omega (arith, length-append (d ∷ front) sep)) in
      ("", after, c, rw here, ends)
]

cut_at_front :
    (s sep : String) {a b after : String}
    → cut_prefix s sep ≡ some after
    → ◌≡◌ {A = Option (String × String)} (some (a, b)) (some ("", after))
    → s ≡ a ++ (sep ++ b)
cut_at_front s sep {a} {b} {after} here e =
    let front : a ≡ "" = ground arith in
    let back : b ≡ after = ground arith in
    rw (front, back, nil-append) (cut_prefix-eq-some s sep here)

pub cut-eq-some : (s sep : String) {a b : String} → cut s sep ≡ some (a, b) → s ≡ a ++ (sep ++ b)
unfolding cut
cut-eq-some [] sep e = elim (Option-cases (cut_prefix [] sep)) [
  | inl missed ↦ ground arith
  | inr (after, here) ↦ cut_at_front [] sep here (sym e ∙ rw here)
]
cut-eq-some (x ∷ s) sep {a} {b} e = elim (Option-cases (cut_prefix (x ∷ s) sep)) [
  | inl missed ↦ elim (Option-cases (cut s sep)) [
    | inl absent ↦ ground arith
    | inr ((a', b'), found) ↦
        let front : a ≡ x ∷ a' = ground arith in
        let back : b ≡ b' = ground arith in
        rw (front, back, cons-append) (ap (λ t. x ∷ t) (cut-eq-some s sep found))
  ]
  | inr (after, here) ↦ cut_at_front (x ∷ s) sep here (sym e ∙ rw here)
]

-- The middle parts stand in the text one behind the other.
abbrev pub Mid : List String → String → Type 0
Mid [] s = Unit
Mid (m ∷ ms) s = (a b : String) × (s ≡ a ++ (m ++ b)) × Mid ms b

Mid-append : (ms : List String) (c s : String) → Mid ms s → Mid ms (c ++ s)
Mid-append [] c s h = tt
Mid-append (m ∷ ms) c s (a, b, e, h) = (c ++ a, b, rw e (sym (append_assoc c a (m ++ b))), h)

pub match_middle_iff : (ms : List String) (s : String) → (match_middle ms s ≡ true) ↔ Mid ms s
unfolding match_middle
match_middle_iff [] s = ((λ _. tt), (λ _. refl))
match_middle_iff (m ∷ ms) s = (
  λ e. elim (Option-cases (cut s m)) [
    | inl absent ↦ ground arith
    | inr ((a, b), found) ↦ (
      a,
      b,
      cut-eq-some s m found,
      (match_middle_iff ms b).0 (sym (rw (found, match_middle)) ∙ e),
    )
  ],
  λ (a, b, e, h).
      let (a', b', c, found, ends) = cut_leftmost s m a b e in
      rw (found, match_middle) ((match_middle_iff ms b').1 (rw ends (Mid-append ms c b h))),
)

pub cut_suffix-eq-some : (s t : String) {r : String} → cut_suffix s t ≡ some r → s ≡ r ++ t
unfolding cut_suffix
cut_suffix-eq-some [] t {r} e = elim (Bool-cases (t == "")) [
  | inl same ↦
      let empty : t ≡ "" = (eq_iff t "").0 same in
      let front : r ≡ "" = ground arith in rw (front, nil-append) (sym empty)
  | inr other ↦ ground arith
]
cut_suffix-eq-some (c ∷ s) t {r} e = elim (Bool-cases ((c ∷ s) == t)) [
  | inl same ↦
      let front : r ≡ "" = ground arith in rw (front, nil-append) ((eq_iff (c ∷ s) t).0 same)
  | inr other ↦ elim (Option-cases (cut_suffix s t)) [
    | inl absent ↦ ground arith
    | inr (r', found) ↦
        let front : r ≡ c ∷ r' = ground arith in
        rw (front, cons-append) (ap (λ u. c ∷ u) (cut_suffix-eq-some s t found))
  ]
]

cut_suffix_self : (t : String) → cut_suffix t t ≡ some ""
unfolding cut_suffix
cut_suffix_self [] = ground (arith, eq_iff "" "")
cut_suffix_self (c ∷ t) = rw (eq_refl (c ∷ t))

longer-ne : (c : Char) (r t : String) → c ∷ (r ++ t) ≢ t
longer-ne c r t e = omega (arith, ap count e, length-cons c (r ++ t), length-append r t)

pub cut_suffix-append : (r t : String) → cut_suffix (r ++ t) t ≡ some r
unfolding cut_suffix
cut_suffix-append [] t = rw nil-append (cut_suffix_self t)
cut_suffix-append (c ∷ r) t =
    rw cons-append (ground (arith, eq_iff (c ∷ (r ++ t)) t, longer-ne c r t, cut_suffix-append r t))

pub cut_suffix_eq : (s t r : String) → s ≡ r ++ t → cut_suffix s t ≡ some r
cut_suffix_eq s t r e = rw e (cut_suffix-append r t)

pub cut_prefix_eq : (s p r : String) → s ≡ p ++ r → cut_prefix s p ≡ some r
cut_prefix_eq s p r e = rw e (cut_prefix-append p r)

-- ===== src/Policy/Matcher/Laws.antt =====
-- The matcher decides what its patterns mean.
use Prim.Native.String.{[], ◌∷◌, ◌++◌}
use text.Mathlib.TextLemmas.{nil-append, cons-append, append_assoc, append-nil}
use auth_operator.Base.{
  String, Char, code, ◌≡◌, ◌≢◌, refl, sym, ap, ◌∙◌, arith, cut_prefix, cut_suffix, Bool-cases,
  Option-cases, eqb, inl, inr, ◌⊎◌, ◌==◌, eq_iff, ◌↔◌, true, List, [], ◌∷◌, split, add_to_head,
  iff_trans,
}
use auth_operator.Policy.Matcher.{star, last_part, init_parts, match_parts, matches_wildcard}
use auth_operator.Policy.Matcher.Glob.{Glob, done, skip, take, same}
use auth_operator.Policy.Matcher.Greedy.{
  Mid, match_middle_iff, cut_prefix-eq-some, cut_prefix_eq, cut_suffix-eq-some, cut_suffix_eq,
}

-- The value fits the parts: the first one in front, the last one at the end, the others between.
abbrev Fits : String → List String → String → Type 0
Fits p [] v = v ≡ p
Fits p (q ∷ ps) v =
    (body : String) × (v ≡ p ++ (body ++ last_part q ps)) × Mid (init_parts q ps) body

Glob-star_to :
    {c : Char} {p v : String}
    → code c ≡ code star
    → Glob (c ∷ p) v
    → (a b : String) × (v ≡ a ++ b) × Glob p b
Glob-star_to h (skip {v} e g) = ("", v, sym (nil-append v), g)
Glob-star_to h (take {d} e g) =
    let (a, b, f, k) = Glob-star_to h g in
    (d ∷ a, b, ap (λ t. d ∷ t) f ∙ sym (cons-append d a b), k)
Glob-star_to h (same ne g) = absurd (ne h)

Glob-star_from :
    {c : Char} {p : String} (a b : String) → code c ≡ code star → Glob p b → Glob (c ∷ p) (a ++ b)
Glob-star_from [] b h g = rw nil-append (skip h g)
Glob-star_from (d ∷ a) b h g = rw cons-append (take h (Glob-star_from a b h g))

Glob-same_to :
    {c : Char} {p v : String}
    → code c ≢ code star
    → Glob (c ∷ p) v
    → (rest : String) × (v ≡ c ∷ rest) × Glob p rest
Glob-same_to h (skip e g) = absurd (h e)
Glob-same_to h (take e g) = absurd (h e)
Glob-same_to h (same {v} ne g) = (v, refl, g)

abbrev FitsAll : List String → String → Type 0
FitsAll [] v = ⊥
FitsAll (p ∷ ps) v = Fits p ps v

-- A part in front of the others, behind any text.
Fits-star :
    (ps : List String) (v : String)
    → FitsAll ("" ∷ ps) v ↔ ((v ≡ "") × (ps ≡ []) ⊎ ((a b : String) × (v ≡ a ++ b) × FitsAll ps b))
Fits-star [] v = (λ e. inl (e, refl), λ h. elim h [ inl t ↦ t.0 | inr (a, b, e, f) ↦ elim f [ ] ])
Fits-star (q ∷ []) v = (
  λ (body, e, _). inr (body, q, e ∙ nil-append (body ++ q), refl),
  λ h. elim h [
    | inl t ↦ cc
    | inr (a, b, e, f) ↦ (a, e ∙ ap (λ t. a ++ t) f ∙ sym (nil-append (a ++ q)), tt)
  ],
)
Fits-star (q ∷ r ∷ rs) v = (
  λ (body, e, (a, b, f, m)). inr (
    a,
    q ++ (b ++ last_part r rs),
    e
        ∙ nil-append (body ++ last_part r rs)
        ∙ ap (λ t. t ++ last_part r rs) f
        ∙ regroup a q b (last_part r rs),
    (b, refl, m),
  ),
  λ h. elim h [
    | inl t ↦ cc
    | inr (a, b, e, (body, f, m)) ↦ (
      a ++ (q ++ body),
      e ∙ ap (λ t. a ++ t) f ∙ sym (regroup a q body (last_part r rs)) ∙ sym (nil-append _),
      (a, body, refl, m),
    )
  ],
)
  where
    regroup : (a q b l : String) → (a ++ (q ++ b)) ++ l ≡ a ++ (q ++ (b ++ l))
    regroup a q b l = append_assoc a (q ++ b) l ∙ ap (λ t. a ++ t) (append_assoc q b l)

Fits-cons :
    (c : Char) (p : String) (ps : List String) (v : String)
    → Fits (c ∷ p) ps v ↔ ((rest : String) × (v ≡ c ∷ rest) × Fits p ps rest)
Fits-cons c p [] v = (λ e. (p, e, refl), λ (rest, e, f). e ∙ ap (λ t. c ∷ t) f)
Fits-cons c p (q ∷ ps) v = (
  λ (body, e, m). (p ++ (body ++ last_part q ps), e ∙ cons-append c p _, (body, refl, m)),
  λ (rest, e, (body, f, m)). (body, e ∙ ap (λ t. c ∷ t) f ∙ sym (cons-append c p _), m),
)

FitsAll-add_to_head :
    (c : Char) (ps : List String) (v : String)
    → ps ≢ []
    → FitsAll (add_to_head c ps) v ↔ ((rest : String) × (v ≡ c ∷ rest) × FitsAll ps rest)
FitsAll-add_to_head c [] v h = absurd (h refl)
FitsAll-add_to_head c (p ∷ ps) v h = Fits-cons c p ps v

add_to_head-ne-nil : (c : Char) (ps : List String) → add_to_head c ps ≢ []
add_to_head-ne-nil c [] e = cc
add_to_head-ne-nil c (p ∷ ps) e = cc

split-ne-nil : (p : String) → split p star ≢ []
unfolding split
split-ne-nil [] e = cc
split-ne-nil (c ∷ p) e = elim (Bool-cases (eqb (code c) (code star))) [
  | inl h ↦ let f : "" ∷ split p star ≡ [] = rw h at e in cc f
  | inr h ↦ add_to_head-ne-nil c (split p star) (rw h at e)
]

Fits-split_iff : (p v : String) → FitsAll (split p star) v ↔ Glob p v
unfolding split
Fits-split_iff [] v = (λ e. rw e done, empty)
  where
    empty : {v : String} → Glob [] v → v ≡ ""
    empty done = refl
Fits-split_iff (c ∷ p) v = elim (Bool-cases (eqb (code c) (code star))) [
  | inl h ↦
      let is_star : code c ≡ code star = ground arith in
      let (f, g) = Fits-star (split p star) v in
      rw h (
        λ t. elim (f t) [
          | inl n ↦ absurd (split-ne-nil p n.1)
          | inr (a, b, e, k) ↦ rw e (Glob-star_from a b is_star ((Fits-split_iff p b).0 k))
        ],
        λ t.
            let (a, b, e, k) = Glob-star_to is_star t in
            g (inr (a, b, e, (Fits-split_iff p b).1 k)),
      )
  | inr h ↦
      let no_star : code c ≢ code star = ground arith in
      let (f, g) = FitsAll-add_to_head c (split p star) v (split-ne-nil p) in
      rw h (
        λ t. let (rest, e, k) = f t in rw e (same no_star ((Fits-split_iff p rest).0 k)),
        λ t. let (rest, e, k) = Glob-same_to no_star t in g (rest, e, (Fits-split_iff p rest).1 k),
      )
]

match_parts_iff :
    (p q : String) (ps : List String) (pattern v : String)
    → (match_parts (p ∷ q ∷ ps) pattern v ≡ true) ↔ Fits p (q ∷ ps) v
unfolding match_parts
match_parts_iff p q ps pattern v = (
  λ e. elim (Option-cases (cut_prefix v p)) [
    | inl absent ↦ ground arith
    | inr (r, found) ↦ elim (Option-cases (cut_suffix r (last_part q ps))) [
      | inl absent ↦ ground arith
      | inr (body, ends) ↦ (
        body,
        cut_prefix-eq-some v p found ∙ ap (λ t. p ++ t) (cut_suffix-eq-some r _ ends),
        (match_middle_iff (init_parts q ps) body).0 (ground arith),
      )
    ]
  ],
  λ (body, e, m).
      rw
        (
          cut_prefix_eq v p _ e,
          cut_suffix_eq (body ++ last_part q ps) (last_part q ps) body refl,
          match_parts,
        )
        ((match_middle_iff (init_parts q ps) body).1 m),
)

add_to_head-single :
    (c : Char) (ps : List String) (q : String)
    → ps ≢ []
    → add_to_head c ps ≡ q ∷ []
    → (q' : String) × (ps ≡ q' ∷ []) × (q ≡ c ∷ q')
add_to_head-single c [] q h e = absurd (h refl)
add_to_head-single c (p ∷ []) q h e = (p, refl, cc)
add_to_head-single c (p ∷ r ∷ ps) q h e = cc

-- A pattern with no "*" is its only part.
split_single : (p q : String) → split p star ≡ q ∷ [] → q ≡ p
unfolding split
split_single [] q e = ground arith
split_single (c ∷ p) q e = elim (Bool-cases (eqb (code c) (code star))) [
  | inl h ↦
      let f : "" ∷ split p star ≡ q ∷ [] = rw h at e in
      let n : split p star ≡ [] = cc f in absurd (split-ne-nil p n)
  | inr h ↦
      let (q', one, front) = add_to_head-single c (split p star) q (split-ne-nil p) (rw h at e) in
      front ∙ ap (λ t. c ∷ t) (split_single p q' one)
]

match_all_iff :
    (ps : List String) (pattern v : String)
    → split pattern star ≡ ps
    → (match_parts ps pattern v ≡ true) ↔ FitsAll ps v
unfolding match_parts
match_all_iff [] pattern v h = absurd (split-ne-nil pattern h)
match_all_iff (p ∷ []) pattern v h =
    let only = split_single pattern p h in
    (λ e. rw only (sym ((eq_iff pattern v).0 e)), λ e. (eq_iff pattern v).1 (sym (e ∙ only)))
match_all_iff (p ∷ q ∷ ps) pattern v h = match_parts_iff p q ps pattern v

Glob-star_all : (v : String) → Glob "*" v
Glob-star_all v = rw (← append-nil v) (Glob-star_from v "" refl done)

-- `MatchesWildcard` holds exactly when the value fits the pattern, each "*" standing for any
-- text and every other character for itself.
pub matches_wildcard_iff :
    (pattern value : String) → (matches_wildcard pattern value ≡ true) ↔ Glob pattern value
unfolding matches_wildcard
matches_wildcard_iff pattern value = elim (Bool-cases (pattern == "*")) [
  | inl h ↦ rw (h, (eq_iff pattern "*").0 h) (λ _. Glob-star_all value, λ _. refl)
  | inr h ↦ rw h (
      iff_trans (match_all_iff (split pattern star) pattern value refl)
        (Fits-split_iff pattern value))
]

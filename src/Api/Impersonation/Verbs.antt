-- ===== src/Api/Impersonation/Verbs.antt =====
-- The verbs of constrained impersonation, written and read back.
use Prim.Native.String.{[], ◌∷◌, ◌++◌}
use text.Mathlib.TextLemmas.{nil-append, cons-append}
use auth_operator.Base.{
  String, ◌≡◌, ◌≢◌, refl, none, some, true, false, Bool-cases, In, contains_iff, eq-false_iff,
  eq_iff, ◌==◌, inl, inr, cut_prefix, cut, code, eqb, contains, arith, Char, Option-cases,
}
use auth_operator.Policy.Matcher.Greedy.{cut_prefix-append, cut_of_prefix}
use auth_operator.Api.Impersonation.{
  identity_verb, action_verb, parse_impersonation_verb, parse_action, parse_by_prefix,
  parse_identity, is_known_mode, all_impersonation_modes,
}

-- A known mode's identity verb is read back as that mode, and as no action.
pub parse_impersonation_verb-identity_verb :
    (mode : String)
    → In mode all_impersonation_modes
    → parse_impersonation_verb (identity_verb mode)
      ≡ some (record { mode = mode; action = ""; is_action = false })
unfolding parse_impersonation_verb parse_by_prefix identity_verb parse_identity is_known_mode
    cut_prefix
parse_impersonation_verb-identity_verb mode (inl e) = rw (← e) refl
parse_impersonation_verb-identity_verb mode (inr (inl e)) = rw (← e) refl
parse_impersonation_verb-identity_verb mode (inr (inr (inl e))) = rw (← e) refl
parse_impersonation_verb-identity_verb mode (inr (inr (inr (inl e)))) = rw (← e) refl
parse_impersonation_verb-identity_verb mode (inr (inr (inr (inr x)))) = elim x [ ]

no_colon :
    (c : Char) (m : String)
    → cut (c ∷ m) ":" ≡ none
    → (eqb (code c) 58 ≡ false) × (cut m ":" ≡ none)
unfolding cut cut_prefix
no_colon c m free = elim (Bool-cases (eqb (code c) 58)) [
  | inl colon ↦ ground arith
  | inr other ↦ (other, elim (Option-cases (cut m ":")) [ inl e ↦ e | inr (p, e) ↦ ground arith ])
]

-- A text without ":" is the part in front of the first ":" that follows it.
cut_behind : (m rest : String) → cut m ":" ≡ none → cut (m ++ (":" ++ rest)) ":" ≡ some (m, rest)
unfolding cut cut_prefix
cut_behind [] rest free =
    rw nil-append (cut_of_prefix (":" ++ rest) ":" (cut_prefix-append ":" rest))
cut_behind (c ∷ m) rest free =
    let (other, later) = no_colon c m free in
    rw cons-append (rw (other, cut_behind m rest later) refl)

known_mode_cut : (mode : String) → In mode all_impersonation_modes → cut mode ":" ≡ none
unfolding cut cut_prefix
known_mode_cut mode (inl e) = rw (← e) refl
known_mode_cut mode (inr (inl e)) = rw (← e) refl
known_mode_cut mode (inr (inr (inl e))) = rw (← e) refl
known_mode_cut mode (inr (inr (inr (inl e)))) = rw (← e) refl
known_mode_cut mode (inr (inr (inr (inr x)))) = elim x [ ]

-- The action verb of a known mode is read back as that mode and the verb it stands for.
pub parse_impersonation_verb-action_verb :
    (mode verb : String)
    → In mode all_impersonation_modes
    → verb ≢ ""
    → parse_impersonation_verb (action_verb mode verb)
      ≡ some (record { mode = mode; action = verb; is_action = true })
unfolding parse_impersonation_verb parse_by_prefix action_verb parse_action is_known_mode
parse_impersonation_verb-action_verb mode verb known given =
    let named : verb == "" ≡ false = (eq-false_iff _ (eq_iff verb "")).1 given in
    let mode_known : contains all_impersonation_modes mode ≡ true =
      (contains_iff all_impersonation_modes mode).1 known in
    rw
      (
        cut_prefix-append "impersonate-on:" (mode ++ (":" ++ verb)),
        cut_behind mode verb (known_mode_cut mode known),
        named,
      )
      (ground (arith, mode_known))

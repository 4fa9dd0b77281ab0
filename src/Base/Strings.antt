-- ===== src/Base/Strings.antt =====
-- The functions of Go's package strings that the program uses, over the characters of a text.
-- (Go works on UTF-8 bytes; on well-formed texts, which JSON gives, the results are the same.)
use Prim.Native.Char.{Char, code}
use Prim.Native.String.{String, [], ◌∷◌, ◌++◌}
use mathlib.Core.Bool.{Bool}
use mathlib.Core.Option
use mathlib.Core.Option.{Option, none, some}
use mathlib.Core.List.{List, [], ◌∷◌}
use text.Mathlib.Text.{◌==◌}
use auth_operator.Base.Tests.{eqb, if◌then◌else◌, is_some}

-- `strings.CutPrefix(s, p)`: the rest of `s` behind the prefix `p`.
unfoldable pub cut_prefix : String → String → Option String
cut_prefix s [] = some s
cut_prefix [] (c ∷ p) = none
cut_prefix (x ∷ s) (c ∷ p) = if eqb (code x) (code c) then cut_prefix s p else none

-- `strings.CutSuffix(s, t)`: what stands before the suffix `t` of `s`.
unfoldable pub cut_suffix : String → String → Option String
cut_suffix [] t = if t == "" then some "" else none
cut_suffix (c ∷ s) t = if (c ∷ s) == t then some "" else Option.map (λ r. c ∷ r) (cut_suffix s t)

-- `strings.HasPrefix` and `strings.HasSuffix`.
unfoldable pub has_prefix : String → String → Bool
has_prefix s p = is_some (cut_prefix s p)

unfoldable pub has_suffix : String → String → Bool
has_suffix s t = is_some (cut_suffix s t)

abbrev behind : Char → Option (String × String) → Option (String × String)
behind c none = none
behind c (some (a, b)) = some (c ∷ a, b)

abbrev cut_here : Option String → Option (String × String) → Option (String × String)
cut_here (some after) later = some ("", after)
cut_here none later = later

-- `strings.Cut(s, sep)`: the parts of `s` before and behind the leftmost `sep`.
unfoldable pub cut : String → String → Option (String × String)
cut [] sep = cut_here (cut_prefix [] sep) none
cut (c ∷ s) sep = cut_here (cut_prefix (c ∷ s) sep) (behind c (cut s sep))

-- `strings.Contains`
unfoldable pub has_text : String → String → Bool
has_text s part = is_some (cut s part)

abbrev pub add_to_head : Char → List String → List String
add_to_head c [] = (c ∷ []) ∷ []
add_to_head c (p ∷ ps) = (c ∷ p) ∷ ps

-- `strings.Split(s, sep)` for a separator of one character, given by its code.
unfoldable pub split : String → Char → List String
split [] sep = "" ∷ []
split (c ∷ s) sep =
    let parts = split s sep in if eqb (code c) (code sep) then "" ∷ parts else add_to_head c parts

-- `strings.Join(parts, sep)`
unfoldable pub join : List String → String → String
join [] sep = ""
join (p ∷ []) sep = p
join (p ∷ q ∷ ps) sep = p ++ (sep ++ (join (q ∷ ps) sep))

-- ===== src/Policy/Matcher/Glob.antt =====
-- What a pattern with "*" means, character by character, and what a prefix and a suffix are.
use Prim.Native.String.{[], ◌∷◌, ◌++◌}
use auth_operator.Base.{String, Char, code, ◌≡◌, ◌≢◌}
use auth_operator.Policy.Matcher.{star}

-- `Glob pattern value`: each "*" stands for any text, every other character for itself.
pub data Glob : String → String → Type 0 where
  done : Glob [] []
  skip : {c : Char} {p v : String} → code c ≡ code star → Glob p v → Glob (c ∷ p) v
  take : {c d : Char} {p v : String} → code c ≡ code star → Glob (c ∷ p) v → Glob (c ∷ p) (d ∷ v)
  same : {c : Char} {p v : String} → code c ≢ code star → Glob p v → Glob (c ∷ p) (c ∷ v)

abbrev pub StartsWith : String → String → Type 0
StartsWith p v = (rest : String) × (v ≡ p ++ rest)

abbrev pub EndsWith : String → String → Type 0
EndsWith s v = (front : String) × (v ≡ front ++ s)

-- ===== src/Admission/Mutate/Laws.antt =====
-- What a patch may do to the labels of a namespace.
use auth_operator.Base.{String, Option, none, some, true, ◌≡◌}
use auth_operator.Kube.{Labels, Namespace}
use auth_operator.Admission.Ownership.{label_at, valid_tracked_ownership_labels}
use auth_operator.Admission.Mutate.{
  Mutation, allowed, refused, failure, patched, add_missing, Unchanged, before, ends, set_labels,
}

abbrev pub patch_of : Mutation → Option Labels
patch_of (patched labels) = some labels
patch_of (allowed reason) = none
patch_of (refused reason) = none
patch_of (failure status error) = none

-- An answer that is no patch, if there is one.
NoPatch : Option Mutation → Type 0
NoPatch none = Unit
NoPatch (some answer) = patch_of answer ≡ none

-- The labels are those of the namespace with some added where missing, and coherent where these are
-- set over the ones there; so that every label there keeps its value.
pub record IsPatch (ns : Namespace) (labels : Labels) : Type 0 where
  pub added :
      (to_add : Labels) × (labels ≡ add_missing to_add ns.labels)
      × (valid_tracked_ownership_labels (set_labels to_add ns.labels) ≡ true)
  pub keeps :
      (key value : String) → label_at ns.labels key ≡ some value → label_at labels key ≡ some value

-- An answer in place of the namespace before is never a patch.
EndsPlain : Unchanged → Type 0
EndsPlain (before o) = Unit
EndsPlain (ends answer) = patch_of answer ≡ none

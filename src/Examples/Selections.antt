-- ===== src/Examples/Selections.antt =====
-- `normalize_selection` of src/czarr/lowlevel/plan.py on an array of shape (5, 4, 3).
use czarr.Prelude.{
  ℕ, ◌≡◌, refl, true, none, some, List, [], ◌∷◌, map, arith, done, raise, not_implemented,
  type_error,
}
use czarr.Prelude.Int.{pos, negsuc}
use czarr.Selection.{
  Selection, tuple, single, boolean, integer, slice, ellipsis, Bound, normalize_selection,
}
use czarr.Selection.Bounds.{
  InBounds, as_slice, normalize_selection-InBounds, normalize_selection-as_slice,
}

abbrev shape : List ℕ
shape = 5 ∷ 4 ∷ 3 ∷ []

-- arr[-1, ..., 1:-1]
abbrev mixed : Selection
mixed = tuple (integer (negsuc 0) ∷ ellipsis ∷ slice (some (pos 1)) (some (negsuc 0)) none ∷ [])

abbrev mixed_bounds : List Bound
mixed_bounds = (4, 5) ∷ (0, 4) ∷ (1, 2) ∷ []

mixed-normalize : normalize_selection mixed shape ≡ done mixed_bounds
unfolding normalize_selection
mixed-normalize = refl

rejected_step :
    normalize_selection (single (slice none none (some (pos 2)))) shape ≡ raise not_implemented
unfolding normalize_selection
rejected_step = refl

rejected_boolean :
    normalize_selection (tuple (integer (pos 0) ∷ boolean true ∷ [])) shape ≡ raise type_error
unfolding normalize_selection
rejected_boolean = refl

empty_slice :
    normalize_selection (single (slice (some (pos 3)) (some (pos 1)) none)) shape
    ≡ done ((3, 3) ∷ (0, 4) ∷ (0, 3) ∷ [])
unfolding normalize_selection
empty_slice = refl

normalize_selection-InBounds_example : InBounds mixed_bounds shape
normalize_selection-InBounds_example =
    normalize_selection-InBounds mixed shape mixed_bounds mixed-normalize

normalize_selection-as_slice_example :
    normalize_selection (tuple (map as_slice mixed_bounds)) shape ≡ done mixed_bounds
normalize_selection-as_slice_example = normalize_selection-as_slice mixed_bounds shape (omega arith)

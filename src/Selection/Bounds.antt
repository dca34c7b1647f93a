-- ===== src/Selection/Bounds.antt =====
-- The bounds that `normalize_selection` returns lie in the array, one for each axis, and selecting
-- by them again gives them back.
use mathlib.Core.Path.{subst}
use mathlib.Core.List.{map, append-nil}
use czarr.Prelude.{
  ℕ, suc, ◌-◌, ◌≤◌, min, max, ◌≡◌, refl, ap, ◌∙◌, none, some, List, [], ◌∷◌, ◌++◌, arith, length,
  replicate, le→ltb, done, >>=-eq-done,
}
use czarr.Prelude.Int.{pos}
use czarr.Selection.{
  Item, Selection, tuple, boolean, integer, slice, newaxis, ellipsis, other, Bound, full, items_of,
  count_ellipsis, axis_bound, axis_bounds, expand_ellipsis, pad_items, normalize_selection,
}

-- One pair for each axis, start ≤ stop ≤ the axis' size.
abbrev pub InBounds : List Bound → List ℕ → Type 0
InBounds [] [] = Unit
InBounds (b ∷ bs) (d ∷ ds) = (b.0 ≤ b.1) × (b.1 ≤ d) × InBounds bs ds
InBounds _ _ = ⊥

axis_bound-InBounds :
    (it : Item) (dim : ℕ) (b : Bound) → axis_bound it dim ≡ done b → (b.0 ≤ b.1) × (b.1 ≤ dim)
unfolding axis_bound
axis_bound-InBounds (boolean x) dim b h = cc
axis_bound-InBounds (integer i) dim b h = ground arith
axis_bound-InBounds (slice start stop step) dim b h = ground arith
axis_bound-InBounds newaxis dim b h = cc
axis_bound-InBounds ellipsis dim b h = cc
axis_bound-InBounds other dim b h = cc

axis_bounds-InBounds :
    (items : List Item) (shape : List ℕ) (bs : List Bound)
    → axis_bounds items shape ≡ done bs
    → InBounds bs shape
unfolding axis_bounds
axis_bounds-InBounds [] [] [] h = tt
axis_bounds-InBounds [] [] (b ∷ bs) h = cc
axis_bounds-InBounds [] (d ∷ ds) bs h = cc
axis_bounds-InBounds (it ∷ items) [] bs h = cc
axis_bounds-InBounds (it ∷ items) (d ∷ ds) bs h =
    let (b, first, tail) = >>=-eq-done (axis_bound it d) _ h in
    let (cs, rest, last) = >>=-eq-done (axis_bounds items ds) _ tail in
    let split : b ∷ cs ≡ bs = cc last in
    let axis = axis_bound-InBounds it d b first in
    subst (λ l. InBounds l (d ∷ ds)) split (axis.0, axis.1, axis_bounds-InBounds items ds cs rest)

-- Whatever the selection, bounds that come back are one pair for each axis with
-- start ≤ stop ≤ size.
pub normalize_selection-InBounds :
    (selection : Selection) (shape : List ℕ) (bs : List Bound)
    → normalize_selection selection shape ≡ done bs
    → InBounds bs shape
unfolding normalize_selection
normalize_selection-InBounds selection shape bs h =
    let (expanded, _, h') = >>=-eq-done (expand_ellipsis (items_of selection) (length shape)) _ h in
    let (padded, _, h'') = >>=-eq-done (pad_items expanded (length shape)) _ h' in
    axis_bounds-InBounds padded shape bs h''

-- `slice(a, b)`
abbrev pub as_slice : Bound → Item
as_slice b = slice (some (pos b.0)) (some (pos b.1)) none

pub length-InBounds :
    (bs : List Bound) (shape : List ℕ) → InBounds bs shape → length bs ≡ length shape
length-InBounds [] [] h = refl
length-InBounds [] (d ∷ ds) h = absurd h
length-InBounds (b ∷ bs) [] h = absurd h
length-InBounds (b ∷ bs) (d ∷ ds) h = ap suc (length-InBounds bs ds h.2)

axis_bounds-as_slice :
    (bs : List Bound) (shape : List ℕ)
    → InBounds bs shape
    → axis_bounds (map as_slice bs) shape ≡ done bs
unfolding axis_bounds axis_bound
axis_bounds-as_slice [] [] h = refl
axis_bounds-as_slice [] (d ∷ ds) h = absurd h
axis_bounds-as_slice (b ∷ bs) [] h = absurd h
axis_bounds-as_slice (b ∷ bs) (d ∷ ds) h =
    let e₀ : min b.0 d ≡ b.0 = let k = h.0 in let l = h.1 in omega arith in
    let e₁ : max b.0 (min b.1 d) ≡ b.1 = let k = h.0 in let l = h.1 in omega arith in
    rw (axis_bounds-as_slice bs ds h.2, e₀, e₁)

-- Items without an Ellipsis, at most one for each axis: only full trailing axes are added.
pub normalize_selection-plain :
    (items : List Item) (shape : List ℕ)
    → count_ellipsis items ≡ 0
    → length items ≤ length shape
    → normalize_selection (tuple items) shape
      ≡ axis_bounds (items ++ replicate (length shape - length items) full) shape
unfolding normalize_selection
normalize_selection-plain items shape none_ short =
    rw (none_, le→ltb (length shape) (length items) short)

pub count_ellipsis-as_slice : (bs : List Bound) → count_ellipsis (map as_slice bs) ≡ 0
count_ellipsis-as_slice [] = refl
count_ellipsis-as_slice (b ∷ bs) = omega (arith, count_ellipsis-as_slice bs)

length-as_slice : (bs : List Bound) → length (map as_slice bs) ≡ length bs
length-as_slice [] = refl
length-as_slice (b ∷ bs) = ap suc (length-as_slice bs)

-- Bounds that lie in the array, put as slices, select themselves.
pub normalize_selection-as_slice :
    (bs : List Bound) (shape : List ℕ)
    → InBounds bs shape
    → normalize_selection (tuple (map as_slice bs)) shape ≡ done bs
normalize_selection-as_slice bs shape h =
    let len : length (map as_slice bs) ≡ length shape =
      length-as_slice bs ∙ length-InBounds bs shape h in
    let rest : length shape - length (map as_slice bs) ≡ 0 = omega arith in
    normalize_selection-plain (map as_slice bs) shape (count_ellipsis-as_slice bs) (omega arith)
    ∙ rw (rest, append-nil) (axis_bounds-as_slice bs shape h)

-- ===== src/Selection.antt =====
-- src/czarr/lowlevel/plan.py: `normalize_selection`, which turns a basic-indexing selection into
-- a (start, stop) pair for each axis, or raises.
pub mod Axes
pub mod Bounds
pub mod Forms
use czarr.Prelude.{
  ℕ, zero, suc, ◌+◌, ◌-◌, min, max, Bool, true, false, ◌&&◌, Option, none, some, List, [], ◌∷◌,
  ◌++◌, length, replicate, ltb, leb, ◌==◌, if◌then◌else◌, Outcome, done, raise, ◌>>=◌, value_error,
  index_error, type_error, not_implemented,
}
use czarr.Prelude.Int.{ℤ, pos, negsuc, ◌+ℤ◌, pos_part}

-- What may stand in a selection. `other` is any value of another type.
pub data Item : Type 0 where
  boolean : Bool → Item
  integer : ℤ → Item
  slice : (start stop step : Option ℤ) → Item
  newaxis ellipsis other : Item

-- A selection is a tuple of items, or one item.
pub data Selection : Type 0 where
  tuple : List Item → Selection
  single : Item → Selection

-- (start, stop)
abbrev pub Bound : Type 0
Bound = ℕ × ℕ

-- `slice(None)`
abbrev pub full : Item
full = slice none none none

abbrev pub items_of : Selection → List Item
items_of (tuple items) = items
items_of (single item) = item ∷ []

-- `it is Ellipsis`
abbrev pub is_ellipsis : Item → Bool
is_ellipsis ellipsis = true
is_ellipsis _ = false

abbrev pub count_ellipsis : List Item → ℕ
count_ellipsis [] = 0
count_ellipsis (it ∷ items) = (if is_ellipsis it then 1 else 0) + count_ellipsis items

-- `items[at : at + 1] = [slice(None)] * pad` at the first Ellipsis
abbrev pub expand : ℕ → List Item → List Item
expand pad [] = []
expand pad (it ∷ items) =
    if is_ellipsis it then replicate pad full ++ items else it ∷ expand pad items

-- One end of a slice as `slice.indices(dim)` gives it for step 1.
abbrev pub clip : ℕ → ℤ → ℕ
clip dim (pos n) = min n dim
clip dim (negsuc n) = pos_part (negsuc n +ℤ dim)

abbrev pub clip_or : ℕ → ℕ → Option ℤ → ℕ
clip_or dim default none = default
clip_or dim default (some i) = clip dim i

-- `it.step in (None, 1)`
abbrev pub unit_step : Option ℤ → Bool
unit_step none = true
unit_step (some (pos n)) = n == 1
unit_step (some (negsuc n)) = false

-- `if not 0 <= i < dim: raise`, `bounds.append((i, i + 1))`
index_bound : ℤ → ℕ → Outcome Bound
index_bound (pos i) dim = if ltb i dim then done (i, i + 1) else raise index_error
index_bound (negsuc i) dim = raise index_error

-- `if i < 0: i += dim`
abbrev pub wrap_index : ℤ → ℕ → ℤ
wrap_index (pos i) dim = pos i
wrap_index (negsuc i) dim = negsuc i +ℤ dim

-- The body of the loop over the axes.
pub axis_bound : Item → ℕ → Outcome Bound
unfolding index_bound
axis_bound (boolean b) dim = raise type_error
axis_bound (integer i) dim = index_bound (wrap_index i dim) dim
axis_bound (slice start stop step) dim =
    if unit_step step
    then (let a = clip_or dim 0 start in done (a, max a (clip_or dim dim stop)))
    else raise not_implemented
axis_bound newaxis dim = raise not_implemented
axis_bound ellipsis dim = raise index_error
axis_bound other dim = raise type_error

-- The loop. `zip(..., strict=True)` raises for lists of different lengths.
pub axis_bounds : List Item → List ℕ → Outcome (List Bound)
axis_bounds [] [] = done []
axis_bounds (it ∷ items) (dim ∷ shape) = do
  b ← axis_bound it dim
  bs ← axis_bounds items shape
  done (b ∷ bs)
axis_bounds _ _ = raise value_error

-- The expansion of an Ellipsis, with its two errors.
expand_ellipsis : List Item → ℕ → Outcome (List Item)
expand_ellipsis items ndim =
    if ltb 1 (count_ellipsis items)
    then raise index_error
    else if count_ellipsis items == 1
    then (if ltb ndim (length items - 1)
        then raise index_error
        else done (expand (ndim - (length items - 1)) items))
    else done items

-- `if len(items) > ndim: raise`, then full trailing axes.
pad_items : List Item → ℕ → Outcome (List Item)
pad_items items ndim =
    if ltb ndim (length items)
    then raise index_error
    else done (items ++ replicate (ndim - length items) full)

unfoldable pub normalize_selection : Selection → List ℕ → Outcome (List Bound)
unfolding axis_bound axis_bounds expand_ellipsis pad_items
normalize_selection selection shape = do
  expanded ← expand_ellipsis (items_of selection) (length shape)
  padded ← pad_items expanded (length shape)
  axis_bounds padded shape

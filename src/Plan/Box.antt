-- ===== src/Plan/Box.antt =====
-- src/czarr/core/array.py: `Array._chunk_box`, the selection of one chunk, and the plan's
-- `selected_units` on it.
use mathlib.Core.List.{map}
use czarr.Prelude.{
  ℕ, suc, ◌+◌, ◌-◌, ◌*◌, ◌/◌, ◌≤◌, ◌<◌, min, ◌≡◌, refl, sym, ap, false, List, [], ◌∷◌, arith, Every,
  length, ltb, lt→ltb, ◌==◌, if◌then◌else◌, Outcome, done, raise, ◌>>=◌, zip_strict, value_error,
  index_error,
}
use czarr.Prelude.Division.{ceil, lt-div-mul, le-div_of_lt, lt-ceil_of_lt, lt_of_lt-ceil}
use czarr.Prelude.Int.{ℤ, pos, negsuc}
use czarr.Selection.{tuple, Bound}
use czarr.Selection.Bounds.{InBounds, as_slice, normalize_selection-as_slice}
use czarr.Plan.{
  DecodePlan, decode_chunk_shape, ceil_div, grid_shape, prefix_each, product, units_of_bounds,
  selected_units,
}
use czarr.Plan.Units.{units_on, all_units_on, zip_strict-axis_units}

-- `if not 0 <= c < g: raise IndexError`
check_index : ℤ → ℕ → Outcome ℕ
check_index (pos c) g = if ltb c g then done c else raise index_error
check_index (negsuc c) g = raise index_error

-- slice(c * s, min((c + 1) * s, dim)), as a pair
abbrev pub box_bound : ℕ → ℕ → ℕ → Bound
box_bound c s dim = (c * s, min ((c + 1) * s) dim)

-- The second `zip(..., strict=True)`, over three tuples.
box_bounds : List ℕ → List ℕ → List ℕ → Outcome (List Bound)
box_bounds [] [] [] = done []
box_bounds (c ∷ cs) (s ∷ ss) (d ∷ ds) = do rest ← box_bounds cs ss ds; done (box_bound c s d ∷ rest)
box_bounds _ _ _ = raise value_error

-- `_chunk_box`, as the bounds of its slices
unfoldable pub chunk_box : DecodePlan → List ℤ → Outcome (List Bound)
unfolding check_index box_bounds grid_shape
chunk_box plan chunk_coords = do
  grid ← grid_shape plan
  coords ← zip_strict check_index chunk_coords grid
  box_bounds coords (decode_chunk_shape plan) plan.shape

-- Coordinates of a chunk of the grid: c < ceil(dim / s) on each axis, with s positive.
abbrev pub InGrid : List ℕ → List ℕ → List ℕ → Type 0
InGrid [] [] [] = Unit
InGrid (c ∷ cs) (s ∷ ss) (d ∷ ds) = (0 < s) × (c < ceil d s) × InGrid cs ss ds
InGrid _ _ _ = ⊥

abbrev boxes : List ℕ → List ℕ → List ℕ → List Bound
boxes (c ∷ cs) (s ∷ ss) (d ∷ ds) = box_bound c s d ∷ boxes cs ss ds
boxes _ _ _ = []

-- What lies in ((c * s, (c + 1) * s] has the ceiling c + 1.
ceil-eq : (c s n : ℕ) → 0 < s → c * s < n → n ≤ (c + 1) * s → ceil n s ≡ c + 1
ceil-eq c s n h lo hi = grind (arith, lt-ceil_of_lt c n s h lo, lt_of_lt-ceil (c + 1) n s h)

mul-div : (c s : ℕ) → 0 < s → c * s / s ≡ c
mul-div c s h = grind (arith, le-div_of_lt c (c * s) s h, lt-div-mul (c * s) s h)

box-units_on : (c s d : ℕ) → 0 < s → c < ceil d s → units_on (box_bound c s d) s ≡ c ∷ []
box-units_on c s d h lt =
    let inside : c * s < d = lt_of_lt-ceil c d s h lt in
    let next : (c + 1) * s ≡ c * s + s = grind arith in
    let e₁ : ceil (min ((c + 1) * s) d) s ≡ c + 1 =
      ceil-eq c s (min ((c + 1) * s) d) h (omega arith) (omega arith) in
    let e₂ : c + 1 - c ≡ 1 = omega arith in
    rw (lt→ltb (c * s) (min ((c + 1) * s) d) (omega arith), e₁, mul-div c s h, e₂)

boxes-InBounds : (cs ss ds : List ℕ) → InGrid cs ss ds → InBounds (boxes cs ss ds) ds
boxes-InBounds [] [] [] h = tt
boxes-InBounds [] [] (d ∷ ds) h = absurd h
boxes-InBounds [] (s ∷ ss) ds h = absurd h
boxes-InBounds (c ∷ cs) [] ds h = absurd h
boxes-InBounds (c ∷ cs) (s ∷ ss) [] h = absurd h
boxes-InBounds (c ∷ cs) (s ∷ ss) (d ∷ ds) h =
    let inside : c * s < d = lt_of_lt-ceil c d s h.0 h.1 in
    let next : (c + 1) * s ≡ c * s + s = grind arith in
    (omega arith, omega arith, boxes-InBounds cs ss ds h.2)

abbrev ceils : List ℕ → List ℕ → List ℕ
ceils (d ∷ ds) (s ∷ ss) = ceil d s ∷ ceils ds ss
ceils _ _ = []

-- What each of the three loops of `_chunk_box` gives for coordinates in the grid.
record Loops (cs ss ds : List ℕ) : Type 0 where
  grid : zip_strict ceil_div ds ss ≡ done (ceils ds ss)
  checks : zip_strict check_index (map pos cs) (ceils ds ss) ≡ done cs
  slices : box_bounds cs ss ds ≡ done (boxes cs ss ds)
  positive : Every (λ s. 0 < s) ss
  lengths : length (boxes cs ss ds) ≡ length ss
  one : product (all_units_on (boxes cs ss ds) ss) ≡ cs ∷ []

InGrid-Loops : (cs ss ds : List ℕ) → InGrid cs ss ds → Loops cs ss ds
unfolding zip_strict check_index box_bounds product prefix_each
InGrid-Loops [] [] [] h = record {
  grid = refl;
  checks = refl;
  slices = refl;
  positive = tt;
  lengths = refl;
  one = refl;
}
InGrid-Loops [] [] (d ∷ ds) h = absurd h
InGrid-Loops [] (s ∷ ss) ds h = absurd h
InGrid-Loops (c ∷ cs) [] ds h = absurd h
InGrid-Loops (c ∷ cs) (s ∷ ss) [] h = absurd h
InGrid-Loops (c ∷ cs) (s ∷ ss) (d ∷ ds) h =
    let rest = InGrid-Loops cs ss ds h.2 in
    let positive : (s == 0) ≡ false = let k = h.0 in ground arith in
    record {
      grid = rw (positive, rest.grid);
      checks = rw (lt→ltb c (ceil d s) h.1, rest.checks);
      slices = rw (rest.slices);
      positive = (h.0, rest.positive);
      lengths = ap suc rest.lengths;
      one = rw (box-units_on c s d h.0 h.1, rest.one);
    }

-- For the coordinates of a chunk of the grid `_chunk_box` returns, and the selection that it builds
-- touches that chunk and no other.
pub chunk_box-selected_units :
    (plan : DecodePlan) (coords : List ℕ)
    → InGrid coords (decode_chunk_shape plan) plan.shape
    → (bs : List Bound) × (chunk_box plan (map pos coords) ≡ done bs)
      × (selected_units plan (tuple (map as_slice bs)) ≡ done (coords ∷ []))
unfolding chunk_box grid_shape selected_units units_of_bounds
chunk_box-selected_units plan coords h =
    let ss = decode_chunk_shape plan in
    let bs = boxes coords ss plan.shape in
    let loops = InGrid-Loops coords ss plan.shape h in
    (
      bs,
      rw (loops.grid, loops.checks, loops.slices),
      rw (
        normalize_selection-as_slice bs plan.shape (boxes-InBounds coords ss plan.shape h),
        zip_strict-axis_units bs ss loops.positive loops.lengths,
        loops.one,
      ),
    )

-- The box of a chunk lies in the array.
pub chunk_box-InBounds :
    (plan : DecodePlan) (coords : List ℕ) (bs : List Bound)
    → InGrid coords (decode_chunk_shape plan) plan.shape
    → chunk_box plan (map pos coords) ≡ done bs
    → InBounds bs plan.shape
unfolding chunk_box grid_shape
chunk_box-InBounds plan coords bs h e =
    let ss = decode_chunk_shape plan in
    let loops = InGrid-Loops coords ss plan.shape h in
    let e' = rw (loops.grid, loops.checks, loops.slices) at e in
    let same : boxes coords ss plan.shape ≡ bs = cc in
    rw (sym same) (boxes-InBounds coords ss plan.shape h)

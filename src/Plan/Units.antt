-- ===== src/Plan/Units.antt =====
-- `selected_units` lists exactly the units whose box meets the selection, each once.
use mathlib.Core.List.{map}
use czarr.Prelude.{
  one_if, length, ℕ, zero, suc, ◌+◌, ◌-◌, ◌*◌, ◌/◌, ◌<◌, min, max, ◌≡◌, refl, sym, ◌∙◌, inl, inr,
  Bool, true, false, ◌&&◌, List, [], ◌∷◌, ◌++◌, arith, Every, Bool-cases, ltb, leb, ltb→lt, ◌==◌,
  if◌then◌else◌, done, zip_strict,
}
use czarr.Prelude.Division.{ceil, le-div_of_lt, lt_of_le-div, lt-ceil_of_lt, lt_of_lt-ceil}
use czarr.Selection.{Selection, Bound, normalize_selection}
use czarr.Selection.Bounds.{normalize_selection-InBounds, length-InBounds}
use czarr.Plan.{
  DecodePlan, decode_chunk_shape, selected_units, range_from, axis_units, prefix_each, product,
  units_of_bounds,
}

-- Equality of coordinates.
abbrev pub same_unit : List ℕ → List ℕ → Bool
same_unit [] [] = true
same_unit (u ∷ us) (v ∷ vs) = u == v && same_unit us vs
same_unit _ _ = false

-- How often the unit stands in the list.
unfoldable pub count_unit : List ℕ → List (List ℕ) → ℕ
count_unit u [] = 0
count_unit u (v ∷ vs) = one_if (same_unit u v) + count_unit u vs

-- The box of unit `us`, for units of shape `cs`, has an element in the bounds.
abbrev pub meets : List ℕ → List Bound → List ℕ → Bool
meets [] [] [] = true
meets (u ∷ us) (b ∷ bs) (c ∷ cs) = ltb (max (u * c) b.0) (min (u * c + c) b.1) && meets us bs cs
meets _ _ _ = false

count : ℕ → List ℕ → ℕ
count u [] = 0
count u (v ∷ vs) = one_if (u == v) + count u vs

count_unit-append :
    (u : List ℕ) (xs ys : List (List ℕ))
    → count_unit u (xs ++ ys) ≡ count_unit u xs + count_unit u ys
unfolding count_unit
count_unit-append u [] ys = omega arith
count_unit-append u (x ∷ xs) ys = omega (arith, count_unit-append u xs ys)

count_unit-map :
    (u x : ℕ) (us : List ℕ) (t : List (List ℕ))
    → count_unit (u ∷ us) (map (λ c. x ∷ c) t) ≡ (if u == x then count_unit us t else 0)
unfolding count_unit
count_unit-map u x us [] = ground arith
count_unit-map u x us (v ∷ vs) = ground (arith, count_unit-map u x us vs)

count_unit-prefix_each :
    (u : ℕ) (us r : List ℕ) (t : List (List ℕ))
    → count_unit (u ∷ us) (prefix_each r t) ≡ count u r * count_unit us t
unfolding count count_unit prefix_each
count_unit-prefix_each u us [] t = omega arith
count_unit-prefix_each u us (x ∷ r) t = grind (
  arith,
  count_unit-append (u ∷ us) (map (λ c. x ∷ c) t) (prefix_each r t),
  count_unit-map u x us t,
  count_unit-prefix_each u us r t,
)

-- No unit of no axes stands among units of at least one.
count_unit-nil : (r : List ℕ) (t : List (List ℕ)) → count_unit [] (prefix_each r t) ≡ 0
unfolding prefix_each count_unit
count_unit-nil [] t = refl
count_unit-nil (x ∷ r) t =
    count_unit-append [] (map (λ c. x ∷ c) t) (prefix_each r t)
    ∙ omega (arith, count_unit-nil r t, nil-map t)
  where
    nil-map : (vs : List (List ℕ)) → count_unit [] (map (λ c. x ∷ c) vs) ≡ 0
    nil-map [] = refl
    nil-map (v ∷ vs) = omega (arith, nil-map vs)

count-range_from : (u a n : ℕ) → count u (range_from a n) ≡ one_if (leb a u && ltb u (a + n))
unfolding count
count-range_from u a zero = ground arith
count-range_from u a (suc n) = ground (arith, count-range_from u (suc a) n)

-- The units of one axis, where the chunk size is positive.
abbrev pub units_on : Bound → ℕ → List ℕ
units_on b c = if ltb b.0 b.1 then range_from (b.0 / c) (ceil b.1 c - b.0 / c) else []

axis_units-eq-done : (b : Bound) (c : ℕ) → 0 < c → axis_units b c ≡ done (units_on b c)
unfolding axis_units
axis_units-eq-done b c h = ground arith

-- A unit of the axis is one whose interval meets the bounds.
in_axis :
    (u lo hi c : ℕ)
    → 0 < c
    → lo < hi
    → one_if (leb (lo / c) u && ltb u (lo / c + (ceil hi c - lo / c)))
      ≡ one_if (ltb (max (u * c) lo) (min (u * c + c) hi))
in_axis u lo hi c h lt = ground (
  arith,
  le-div_of_lt u lo c h,
  lt_of_le-div u lo c h,
  lt-ceil_of_lt u hi c h,
  lt_of_lt-ceil u hi c h,
)

count-units_on :
    (u : ℕ) (b : Bound) (c : ℕ)
    → 0 < c
    → count u (units_on b c) ≡ one_if (ltb (max (u * c) b.0) (min (u * c + c) b.1))
count-units_on u b c h = elim (Bool-cases (ltb b.0 b.1)) [
  | inl e ↦
      rw e
        (count-range_from u (b.0 / c) (ceil b.1 c - b.0 / c) ∙ in_axis u b.0 b.1 c h (ltb→lt _ _ e))
  | inr e ↦ rw e (unfold count in ground arith)
]

abbrev pub all_units_on : List Bound → List ℕ → List (List ℕ)
all_units_on (b ∷ bs) (c ∷ cs) = units_on b c ∷ all_units_on bs cs
all_units_on _ _ = []

pub zip_strict-axis_units :
    (bs : List Bound) (cs : List ℕ)
    → Every (λ c. 0 < c) cs
    → length bs ≡ length cs
    → zip_strict axis_units bs cs ≡ done (all_units_on bs cs)
unfolding zip_strict
zip_strict-axis_units [] [] h e = refl
zip_strict-axis_units [] (c ∷ cs) h e = absurd (omega arith)
zip_strict-axis_units (b ∷ bs) [] h e = absurd (omega arith)
zip_strict-axis_units (b ∷ bs) (c ∷ cs) h e =
    rw (axis_units-eq-done b c h.0, zip_strict-axis_units bs cs h.1 (omega arith))

count_unit-product :
    (us : List ℕ) (bs : List Bound) (cs : List ℕ)
    → Every (λ c. 0 < c) cs
    → length bs ≡ length cs
    → count_unit us (product (all_units_on bs cs)) ≡ one_if (meets us bs cs)
unfolding product
count_unit-product [] [] [] h e = unfold count_unit in refl
count_unit-product (u ∷ us) [] [] h e = unfold count_unit in refl
count_unit-product us [] (c ∷ cs) h e = absurd (omega arith)
count_unit-product us (b ∷ bs) [] h e = absurd (omega arith)
count_unit-product [] (b ∷ bs) (c ∷ cs) h e = count_unit-nil (units_on b c) _
count_unit-product (u ∷ us) (b ∷ bs) (c ∷ cs) h e =
    count_unit-prefix_each u us (units_on b c) _
    ∙ rw (count-units_on u b c h.0, count_unit-product us bs cs h.1 (omega arith)) (ground arith)

units_of_bounds-count :
    (bs : List Bound) (cs : List ℕ)
    → Every (λ c. 0 < c) cs
    → length bs ≡ length cs
    → (units : List (List ℕ)) × (units_of_bounds bs cs ≡ done units)
      × ((us : List ℕ) → count_unit us units ≡ one_if (meets us bs cs))
unfolding units_of_bounds
units_of_bounds-count bs cs h e = (
  product (all_units_on bs cs),
  rw (zip_strict-axis_units bs cs h e),
  λ us. count_unit-product us bs cs h e,
)

-- Where the selection normalizes to `bs` and the plan's units have a positive size on each axis,
-- `selected_units` returns; a unit stands in its result once if its box has an element inside
-- `bs`, and not at all otherwise.
pub selected_units-count :
    (plan : DecodePlan) (selection : Selection) (bs : List Bound)
    → normalize_selection selection plan.shape ≡ done bs
    → Every (λ c. 0 < c) (decode_chunk_shape plan)
    → length (decode_chunk_shape plan) ≡ length plan.shape
    → (units : List (List ℕ)) × (selected_units plan selection ≡ done units)
      × ((us : List ℕ) → count_unit us units ≡ one_if (meets us bs (decode_chunk_shape plan)))
unfolding selected_units
selected_units-count plan selection bs h positive lengths =
    let inside = normalize_selection-InBounds selection plan.shape bs h in
    let (units, ran, counted) =
      units_of_bounds-count bs (decode_chunk_shape plan) positive
        (length-InBounds bs plan.shape inside ∙ sym lengths) in
    (units, rw h ran, counted)

-- ===== src/Selection/Axes.antt =====
-- src/czarr/array.py: `_int_axes`, the axes that a selection takes an integer of, beside the bounds that
-- `normalize_selection` of src/czarr/lowlevel/plan.py gives for them.
use mathlib.Core.Path.{subst}
use czarr.Prelude.{
  ℕ, suc, ◌-◌, ◌≤◌, ◌≡◌, ap, inl, inr, Bool-cases, ltb, some, List, [], ◌∷◌, ◌++◌, map, take,
  take-all, get_elem?, length, replicate, Every, Every-mono, ◌==◌, if◌then◌else◌, arith, Outcome,
  done, >>=-eq-done,
}
use czarr.Selection.{
  Item, Selection, boolean, integer, slice, newaxis, ellipsis, other, Bound, full, items_of,
  count_ellipsis, expand, axis_bound, axis_bounds, expand_ellipsis, pad_items, normalize_selection,
}

-- `enumerate(items)` from an axis on, for the items that are integers and no booleans.
abbrev pub axes_from : ℕ → List Item → List ℕ
axes_from axis [] = []
axes_from axis (integer i ∷ items) = axis ∷ axes_from (suc axis) items
axes_from axis (_ ∷ items) = axes_from (suc axis) items

-- `_int_axes`
abbrev pub int_axes : Selection → ℕ → List ℕ
int_axes selection ndim =
    let items = items_of selection in
    let expanded =
      if count_ellipsis items == 1 then expand (ndim - (length items - 1)) items else items in
    axes_from 0 (take ndim expanded)

-- An integer selects one index.
axis_bound-one : (i : _) (dim : ℕ) (b : Bound) → axis_bound (integer i) dim ≡ done b → b.1 - b.0 ≡ 1
unfolding axis_bound
axis_bound-one i dim b h = ground arith

-- The extents of an axis at or behind `start`, in the list that begins there.
abbrev IsOne : ℕ → List Bound → ℕ → Type 0
IsOne start bs axis = (start ≤ axis) × (get_elem? (map (λ b. b.1 - b.0) bs) (axis - start) ≡ some 1)

IsOne-cons :
    (start : ℕ) (b : Bound) (bs : List Bound) (axis : ℕ)
    → IsOne (suc start) bs axis
    → IsOne start (b ∷ bs) axis
IsOne-cons start b bs axis h =
    let le = h.0 in
    let e : axis - start ≡ suc (axis - suc start) = omega arith in (omega arith, rw e h.1)

axes_from-IsOne :
    (start : ℕ) (items rest : List Item) (shape : List ℕ) (bs : List Bound)
    → axis_bounds (items ++ rest) shape ≡ done bs
    → Every (IsOne start bs) (axes_from start items)
unfolding axis_bounds
axes_from-IsOne start [] rest shape bs h = tt
axes_from-IsOne start (it ∷ items) rest [] bs h = cc
axes_from-IsOne start (it ∷ items) rest (d ∷ ds) bs h =
    let (b, first, tail) = >>=-eq-done (axis_bound it d) _ h in
    let (cs, more, last) = >>=-eq-done (axis_bounds (items ++ rest) ds) _ tail in
    let split : b ∷ cs ≡ bs = cc last in
    let later =
      Every-mono (IsOne-cons start b cs) (axes_from (suc start) items)
        (axes_from-IsOne (suc start) items rest ds cs more) in
    subst (λ l. Every (IsOne start l) (axes_from start (it ∷ items))) split
      (with_item start it items d b cs first later)
  where
    with_item :
        (start : ℕ) (it : Item) (items : List Item) (d : ℕ) (b : Bound) (cs : List Bound)
        → axis_bound it d ≡ done b
        → Every (IsOne start (b ∷ cs)) (axes_from (suc start) items)
        → Every (IsOne start (b ∷ cs)) (axes_from start (it ∷ items))
    with_item start (integer i) items d b cs first later =
        let e : start - start ≡ 0 = omega arith in
        ((omega arith, rw e (ap some (axis_bound-one i d b first))), later)
    with_item start (boolean x) items d b cs first later = later
    with_item start (slice u v w) items d b cs first later = later
    with_item start newaxis items d b cs first later = later
    with_item start ellipsis items d b cs first later = later
    with_item start other items d b cs first later = later

items_eq : (a b : List Item) → ◌≡◌ {A = Outcome (List Item)} (done a) (done b) → a ≡ b
items_eq a b h = cc

-- The expansion that `_int_axes` repeats is that of `normalize_selection`, where this accepts.
expanded_eq :
    (items expanded : List Item) (ndim : ℕ)
    → expand_ellipsis items ndim ≡ done expanded
    → (if count_ellipsis items == 1 then expand (ndim - (length items - 1)) items else items)
      ≡ expanded
unfolding expand_ellipsis
expanded_eq items expanded ndim h = elim (Bool-cases (ltb 1 (count_ellipsis items))) [
  | inl many ↦ let h' = rw many at h in cc
  | inr few ↦ elim (Bool-cases (count_ellipsis items == 1)) [
    | inl one ↦ elim (Bool-cases (ltb ndim (length items - 1))) [
      | inl long ↦ let h' = rw (few, one, long) at h in cc
      | inr fits ↦ let h' = rw (few, one, fits) at h in rw one (items_eq _ expanded h')
    ]
    | inr none ↦ let h' = rw (few, none) at h in rw none (items_eq items expanded h')
  ]
]

-- Padding adds full axes behind items that are no more than the axes.
padded_eq :
    (items padded : List Item) (ndim : ℕ)
    → pad_items items ndim ≡ done padded
    → (length items ≤ ndim) × (rest : List Item) × (items ++ rest ≡ padded)
unfolding pad_items
padded_eq items padded ndim h = elim (Bool-cases (ltb ndim (length items))) [
  | inl long ↦ let h' = rw long at h in cc
  | inr fits ↦
      let h' = rw fits at h in
      let le : length items ≤ ndim = ground arith in
      (le, replicate (ndim - length items) full, items_eq _ padded h')
]

-- Each axis that is squeezed has one index: where `normalize_selection` accepts the selection, the bounds
-- of each axis in `_int_axes` are one apart.
pub int_axes-normalize_selection :
    (selection : Selection) (shape : List ℕ) (bs : List Bound)
    → normalize_selection selection shape ≡ done bs
    → Every
        (λ axis. get_elem? (map (λ b. b.1 - b.0) bs) axis ≡ some 1)
        (int_axes selection (length shape))
unfolding normalize_selection pad_items
int_axes-normalize_selection selection shape bs h =
    let (expanded, e, h') = >>=-eq-done (expand_ellipsis (items_of selection) (length shape)) _ h in
    let (padded, p, h'') = >>=-eq-done (pad_items expanded (length shape)) _ h' in
    let (fits, rest, same) = padded_eq expanded padded (length shape) p in
    let bounds : axis_bounds (expanded ++ rest) shape ≡ done bs = rw same h'' in
    let whole = take-all (length shape) expanded fits in
    let axes = axes_from-IsOne 0 expanded rest shape bs bounds in
    let same_items = expanded_eq (items_of selection) expanded (length shape) e in
    rw (same_items, whole)
      (Every-mono (λ axis one. let e : axis - 0 ≡ axis = omega arith in rw e at one.1)
        (axes_from 0 expanded) axes)

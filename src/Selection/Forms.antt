-- ===== src/Selection/Forms.antt =====
-- How the forms of a selection act: one index, an Ellipsis, and what is rejected.
use czarr.Prelude.{
  ℕ, zero, suc, ◌+◌, ◌-◌, ◌≤◌, ◌<◌, ◌≡◌, refl, sym, ap, ◌∙◌, ◌⊎◌, inl, inr, List, [], ◌∷◌, ◌++◌,
  arith, length, length-append, replicate, Bool-cases, lt→ltb, le→ltb, done, raise, ◌>>=◌,
  index_error,
}
use czarr.Prelude.Int.{ℤ, pos, neg}
use czarr.Selection.{
  Item, Selection, tuple, integer, ellipsis, full, items_of, is_ellipsis, count_ellipsis, expand,
  axis_bound, axis_bounds, expand_ellipsis, pad_items, normalize_selection,
}

-- An integer that names an element of the axis, from the start or, negative, from the end, selects
-- the length-1 range of that element.
axis_bound-integer :
    (i : ℤ) (dim a : ℕ)
    → (a < dim)
    → ((i ≡ pos a) ⊎ (i ≡ neg (pos (dim - a))))
    → axis_bound (integer i) dim ≡ done (a, a + 1)
unfolding axis_bound
axis_bound-integer i dim a h (inl e) = rw e (ground arith)
axis_bound-integer i dim a h (inr e) = rw e (ground arith)

count_ellipsis-append :
    (xs ys : List Item) → count_ellipsis (xs ++ ys) ≡ count_ellipsis xs + count_ellipsis ys
count_ellipsis-append [] ys = omega arith
count_ellipsis-append (x ∷ xs) ys = omega (arith, count_ellipsis-append xs ys)

count_ellipsis-full : (k : ℕ) → count_ellipsis (replicate k full) ≡ 0
count_ellipsis-full zero = refl
count_ellipsis-full (suc k) = omega (arith, count_ellipsis-full k)

expand-first :
    (pad : ℕ) (before after : List Item)
    → count_ellipsis before ≡ 0
    → expand pad (before ++ ellipsis ∷ after) ≡ before ++ (replicate pad full ++ after)
expand-first pad [] after h = refl
expand-first pad (x ∷ before) after h = elim (Bool-cases (is_ellipsis x)) [
  | inl e ↦ absurd (let c = rw e at h in omega arith)
  | inr e ↦ rw e (ap (◌∷◌ x) (expand-first pad before after (let c = rw e at h in omega arith)))
]

expand_ellipsis-none :
    (items : List Item) (ndim : ℕ)
    → count_ellipsis items ≡ 0
    → expand_ellipsis items ndim ≡ done items
unfolding expand_ellipsis
expand_ellipsis-none items ndim h = rw h

expand_ellipsis-one :
    (items : List Item) (ndim : ℕ)
    → count_ellipsis items ≡ 1
    → length items - 1 ≤ ndim
    → expand_ellipsis items ndim ≡ done (expand (ndim - (length items - 1)) items)
unfolding expand_ellipsis
expand_ellipsis-one items ndim h short = rw (h, le→ltb ndim (length items - 1) short)

normalize_selection-expanded :
    (items expanded : List Item) (shape : List ℕ)
    → expand_ellipsis items (length shape) ≡ done expanded
    → normalize_selection (tuple items) shape
      ≡ (pad_items expanded (length shape) >>= λ padded. axis_bounds padded shape)
unfolding normalize_selection
normalize_selection-expanded items expanded shape h = rw h

-- An Ellipsis stands for as many full slices as the axes that the other items leave.
normalize_selection-ellipsis :
    (before after : List Item) (shape : List ℕ)
    → count_ellipsis before ≡ 0
    → count_ellipsis after ≡ 0
    → length before + length after ≤ length shape
    → normalize_selection (tuple (before ++ ellipsis ∷ after)) shape
      ≡ normalize_selection
          (tuple
            (before ++ (replicate (length shape - (length before + length after)) full ++ after)))
          shape
normalize_selection-ellipsis before after shape h k short =
    let items = before ++ ellipsis ∷ after in
    let pad = length shape - (length before + length after) in
    let filled = before ++ (replicate pad full ++ after) in
    let len : length items - 1 ≡ length before + length after =
      omega (arith, length-append before (ellipsis ∷ after)) in
    let one : count_ellipsis items ≡ 1 =
      omega (arith, count_ellipsis-append before (ellipsis ∷ after)) in
    let zero_ : count_ellipsis filled ≡ 0 = omega (
      arith,
      count_ellipsis-append before (replicate pad full ++ after),
      count_ellipsis-append (replicate pad full) after,
      count_ellipsis-full pad,
    ) in
    let expanded : expand_ellipsis items (length shape) ≡ done filled =
      expand_ellipsis-one items (length shape) one (omega arith)
      ∙ ap done (rw len (expand-first pad before after h)) in
    normalize_selection-expanded items filled shape expanded
    ∙ sym (
        normalize_selection-expanded filled filled shape
          (expand_ellipsis-none filled (length shape) zero_))

-- More items than axes, beside at most one Ellipsis, raise `IndexError`; so do two Ellipses.
normalize_selection_too_many :
    (selection : Selection) (shape : List ℕ)
    → (1 < count_ellipsis (items_of selection))
      ⊎ (length shape + count_ellipsis (items_of selection) < length (items_of selection))
    → normalize_selection selection shape ≡ raise index_error
unfolding normalize_selection
normalize_selection_too_many selection shape (inl two) =
    rw (lt→ltb 1 (count_ellipsis (items_of selection)) two)
normalize_selection_too_many selection shape (inr many) = ground arith

-- ===== src/Decode/Scatter.antt =====
-- Every element of the selection comes out of the chunk that holds it.
use czarr.Prelude.{
  ℕ, ◌+◌, ◌-◌, ◌*◌, ◌/◌, ◌%◌, ◌≤◌, ◌<◌, min, max, ◌≡◌, refl, ap, ap₂, ◌∙◌, inl, inr, Bool, true,
  ◌&&◌, Option, none, some, List, [], ◌∷◌, arith, Every, Bool-cases, Option-cases, ltb, leb, ◌==◌,
  ==_iff, if◌then◌else◌, Outcome, done,
}
use czarr.Prelude.Division.{
  le-div_of_lt, lt_of_le-div, le-div_of_mul-le, mul-le_of_le-div, mod-eq-sub,
}
use czarr.Prelude.Int.{pos}
use czarr.Selection.{Bound}
use czarr.Selection.Bounds.{InBounds}
use czarr.Plan.Units.{same_unit, meets}
use czarr.Decode.{
  Slice, intersect_axis, intersect, in_box, move, widths, slices, NdArray, scatter, chunk_nbytes,
}

-- A point of the output: on each axis below the width of the bounds.
abbrev pub Inside : List ℕ → List Bound → Type 0
Inside [] [] = Unit
Inside (x ∷ xs) (b ∷ bs) = (x < b.1 - b.0) × Inside xs bs
Inside _ _ = ⊥

-- The unit that holds the point of the output, and the point's place in that unit.
abbrev pub unit_of : List ℕ → List Bound → List ℕ → List ℕ
unit_of (x ∷ xs) (b ∷ bs) (c ∷ cs) = ((b.0 + x) / c) ∷ unit_of xs bs cs
unit_of _ _ _ = []

abbrev pub within : List ℕ → List Bound → List ℕ → List ℕ
within (x ∷ xs) (b ∷ bs) (c ∷ cs) = ((b.0 + x) % c) ∷ within xs bs cs
within _ _ _ = []

-- The two boxes of `_intersect`.
abbrev source : ℕ → ℕ → Bound → Bound
source u c b = (max (u * c) b.0 - u * c, min (u * c + c) b.1 - u * c)

abbrev target : ℕ → ℕ → Bound → Bound
target u c b = (max (u * c) b.0 - b.0, min (u * c + c) b.1 - b.0)

abbrev zip_boxes : (ℕ → ℕ → Bound → Bound) → List ℕ → List ℕ → List Bound → List Bound
zip_boxes f (u ∷ us) (c ∷ cs) (b ∷ bs) = f u c b ∷ zip_boxes f us cs bs
zip_boxes f _ _ _ = []

-- On an axis where the unit meets the bounds no end is negative.
intersect_axis-eq :
    (u c : ℕ) (b : Bound)
    → ltb (max (u * c) b.0) (min (u * c + c) b.1) ≡ true
    → intersect_axis u c b
      ≡ ((pos (source u c b).0, pos (source u c b).1), (pos (target u c b).0, pos (target u c b).1))
intersect_axis-eq u c b h = ground arith

and-true : (a b : Bool) → (a && b) ≡ true → (a ≡ true) × (b ≡ true)
and-true a b h = ground arith

-- The slices of one axis before those of the others.
abbrev cons_slices :
    List ℕ → List ℕ → List Bound → Slice × Slice → Outcome (List Slice × List Slice)
cons_slices us cs bs (s, d) =
    done (s ∷ slices (zip_boxes source us cs bs), d ∷ slices (zip_boxes target us cs bs))

-- What the proof needs of a unit that meets the bounds.
record Boxes (us : List ℕ) (cs : List ℕ) (bs : List Bound) : Type 0 where
  slicing :
      intersect us cs bs
      ≡ done (slices (zip_boxes source us cs bs), slices (zip_boxes target us cs bs))
  in_source : InBounds (zip_boxes source us cs bs) cs
  in_target : InBounds (zip_boxes target us cs bs) (widths bs)
  same_widths : widths (zip_boxes target us cs bs) ≡ widths (zip_boxes source us cs bs)

meets-Boxes : (us : List ℕ) (cs : List ℕ) (bs : List Bound) → meets us bs cs ≡ true → Boxes us cs bs
unfolding intersect
meets-Boxes [] [] [] h = record {
  slicing = refl;
  in_source = tt;
  in_target = tt;
  same_widths = refl;
}
meets-Boxes [] [] (b ∷ bs) h = absurd (cc)
meets-Boxes [] (c ∷ cs) [] h = absurd (cc)
meets-Boxes [] (c ∷ cs) (b ∷ bs) h = absurd (cc)
meets-Boxes (u ∷ us) [] [] h = absurd (cc)
meets-Boxes (u ∷ us) [] (b ∷ bs) h = absurd (cc)
meets-Boxes (u ∷ us) (c ∷ cs) [] h = absurd (cc)
meets-Boxes (u ∷ us) (c ∷ cs) (b ∷ bs) h =
    let (here, there) = and-true _ (meets us bs cs) h in
    let rest = meets-Boxes us cs bs there in
    record {
      slicing = rw rest.slicing (ap (cons_slices us cs bs) (intersect_axis-eq u c b here));
      in_source = (ground arith, ground arith, rest.in_source);
      in_target = (ground arith, ground arith, rest.in_target);
      same_widths = ap₂ ◌∷◌ (ground arith) rest.same_widths;
    }

axis-same_unit :
    (u c x : ℕ) (b : Bound)
    → 0 < c
    → x < b.1 - b.0
    → (leb (target u c b).0 x && ltb x (target u c b).1) ≡ (u == (b.0 + x) / c)
axis-same_unit u c x b h lt = ground (
  arith,
  le-div_of_lt u (b.0 + x) c h,
  lt_of_le-div u (b.0 + x) c h,
  le-div_of_mul-le u (b.0 + x) c h,
  mul-le_of_le-div u (b.0 + x) c h,
)

axis-within :
    (u c x : ℕ) (b : Bound)
    → 0 < c
    → x < b.1 - b.0
    → u ≡ (b.0 + x) / c
    → (source u c b).0 + (x - (target u c b).0) ≡ (b.0 + x) % c
axis-within u c x b h lt e =
    let m = mod-eq-sub u (b.0 + x) c h e in
    let below : b.0 + x < u * c + c = lt_of_le-div u (b.0 + x) c h (omega arith) in
    let above : u * c ≤ b.0 + x = mul-le_of_le-div u (b.0 + x) c h (omega arith) in omega arith

Inside-empty :
    (x : ℕ) (xs : List ℕ) (bs : List Bound) → Inside (x ∷ xs) bs → meets [] bs [] ≡ true → ⊥
Inside-empty x xs [] i m = i
Inside-empty x xs (b ∷ bs) i m = cc

-- The point lies in the target box exactly if the unit is its own.
in_box-same_unit :
    (us cs x : List ℕ) (bs : List Bound)
    → Every (λ c. 0 < c) cs
    → Inside x bs
    → meets us bs cs ≡ true
    → in_box x (zip_boxes target us cs bs) ≡ same_unit us (unit_of x bs cs)
in_box-same_unit [] [] [] [] h i m = refl
in_box-same_unit [] [] [] (b ∷ bs) h i m = absurd i
in_box-same_unit [] [] (x ∷ xs) bs h i m = absurd (Inside-empty x xs bs i m)
in_box-same_unit [] (c ∷ cs) x [] h i m = absurd (cc)
in_box-same_unit [] (c ∷ cs) x (b ∷ bs) h i m = absurd (cc)
in_box-same_unit (u ∷ us) [] x [] h i m = absurd (cc)
in_box-same_unit (u ∷ us) [] x (b ∷ bs) h i m = absurd (cc)
in_box-same_unit (u ∷ us) (c ∷ cs) x [] h i m = absurd (cc)
in_box-same_unit (u ∷ us) (c ∷ cs) [] (b ∷ bs) h i m = absurd i
in_box-same_unit (u ∷ us) (c ∷ cs) (x ∷ xs) (b ∷ bs) h i m =
    let (here, there) = and-true _ (meets us bs cs) m in
    ap₂ ◌&&◌ (axis-same_unit u c x b h.0 i.0) (in_box-same_unit us cs xs bs h.1 i.1 there)

-- Its place in the source box is its place in the unit.
move-within :
    (us cs x : List ℕ) (bs : List Bound)
    → Every (λ c. 0 < c) cs
    → Inside x bs
    → meets us bs cs ≡ true
    → same_unit us (unit_of x bs cs) ≡ true
    → move x (zip_boxes target us cs bs) (zip_boxes source us cs bs) ≡ within x bs cs
move-within [] [] [] [] h i m s = refl
move-within [] [] [] (b ∷ bs) h i m s = absurd i
move-within [] [] (x ∷ xs) bs h i m s = absurd (Inside-empty x xs bs i m)
move-within [] (c ∷ cs) x [] h i m s = absurd (cc)
move-within [] (c ∷ cs) x (b ∷ bs) h i m s = absurd (cc)
move-within (u ∷ us) [] x [] h i m s = absurd (cc)
move-within (u ∷ us) [] x (b ∷ bs) h i m s = absurd (cc)
move-within (u ∷ us) (c ∷ cs) x [] h i m s = absurd (cc)
move-within (u ∷ us) (c ∷ cs) [] (b ∷ bs) h i m s = absurd i
move-within (u ∷ us) (c ∷ cs) (x ∷ xs) (b ∷ bs) h i m s =
    let (here, there) = and-true _ (meets us bs cs) m in
    let (own, rest) = and-true _ (same_unit us (unit_of xs bs cs)) s in
    ap₂ ◌∷◌ (axis-within u c x b h.0 i.0 ((==_iff _ _).0 own))
      (move-within us cs xs bs h.1 i.1 there rest)

module _ {A : Type 0} {itemsize : ℕ} (cupy : NdArray A itemsize) where
  open cupy use {Flat, Arr, size, view, shape, get, assign, shape-view, shape-assign, get-assign}

  -- The bytes that were decoded last for the unit.
  abbrev pub lookup_last : List ℕ → List (List ℕ × Flat) → Option Flat
  lookup_last u [] = none
  lookup_last u ((v, flat) ∷ rest) = elim (lookup_last u rest) [
    | some f ↦ some f
    | none ↦ if same_unit v u then some flat else none
  ]

  -- The element of the chunk, or the given one where there is no chunk.
  abbrev pub element : List ℕ → A → List ℕ → Option Flat → A
  element chunk_shape a place none = a
  element chunk_shape a place (some flat) = get (view flat chunk_shape) place

  module _ (cs : List ℕ) (bs : List Bound) (positive : Every (λ c. 0 < c) cs) where
    -- A part to scatter: a unit that meets the bounds, with as many bytes as a chunk has.
    abbrev pub IsPart : List ℕ × Flat → Type 0
    IsPart p = (meets p.0 bs cs ≡ true) × (size p.1 ≡ chunk_nbytes cs itemsize)

    get-assign_part :
        (us : List ℕ) (flat : Flat) (out : Arr) (x : List ℕ)
        → IsPart (us, flat)
        → shape out ≡ widths bs
        → Inside x bs
        → get
            (assign out
              (slices (zip_boxes target us cs bs))
              (view flat cs)
              (slices (zip_boxes source us cs bs)))
            x
          ≡ element cs
              (get out x)
              (within x bs cs)
              (if same_unit us (unit_of x bs cs) then some flat else none)
    get-assign_part us flat out x part so i =
        let boxes = meets-Boxes us cs bs part.0 in
        get-assign out (view flat cs) (zip_boxes target us cs bs) (zip_boxes source us cs bs) x
          (rw so boxes.in_target) (rw (shape-view flat cs part.1) boxes.in_source) boxes.same_widths
        ∙ rw (in_box-same_unit us cs x bs positive i part.0)
            (elim (Bool-cases (same_unit us (unit_of x bs cs))) [
              | inl e ↦ rw e (ap (get (view flat cs)) (move-within us cs x bs positive i part.0 e))
              | inr e ↦ rw e
            ])

    -- For units that meet the bounds, with the bytes of a chunk each, and an output of the
    -- selection's shape, scattering returns. Each element x of the result is the element of the chunk
    -- of the unit (start + x) // c at the place (start + x) % c, or the element that the output held
    -- where no chunk of that unit is given.
    pub scatter-get :
        (parts : List (List ℕ × Flat)) (out : Arr)
        → Every IsPart parts
        → shape out ≡ widths bs
        → (result : Arr) × (scatter cupy cs bs parts out ≡ done result)
          × ((x : List ℕ)
              → Inside x bs
              → get result x
                ≡ element cs (get out x) (within x bs cs) (lookup_last (unit_of x bs cs) parts))
    unfolding scatter
    scatter-get [] out h so = (out, refl, λ x i. refl)
    scatter-get ((us, flat) ∷ rest) out h so =
        let boxes = meets-Boxes us cs bs h.0.0 in
        let out' =
          assign out (slices (zip_boxes target us cs bs)) (view flat cs)
            (slices (zip_boxes source us cs bs)) in
        let (result, ran, spec) = scatter-get rest out' h.1 (shape-assign _ _ _ _ ∙ so) in
        (
          result,
          rw ((==_iff _ _).1 h.0.1, boxes.slicing) ran,
          λ x i. spec x i ∙ (elim (Option-cases (lookup_last (unit_of x bs cs) rest)) [
            | inl e ↦ rw e (get-assign_part us flat out x h.0 so i)
            | inr (f, e) ↦ rw e
          ]),
        )

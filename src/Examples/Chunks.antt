-- ===== src/Examples/Chunks.antt =====
-- src/czarr/lowlevel/decode.py over arrays that are a shape and a function.
use czarr.Prelude.{
  ℕ, ◌+◌, ◌*◌, ◌≡◌, refl, ap₂, List, [], ◌∷◌, map, arith, if◌then◌else◌, Outcome, done, raise,
}
use czarr.Prelude.Int.{pos_part}
use czarr.Selection.{Bound}
use czarr.Decode.{Slice, in_box, move, slices, NdArray, scatter}
use czarr.Decode.Scatter.{Inside, unit_of, within, lookup_last, element, scatter-get}

abbrev pub Array : Type 0
Array = List ℕ × (List ℕ → ℕ)

abbrev boxes : List Slice → List Bound
boxes = map (λ s. (pos_part s.0, pos_part s.1))

pub boxes-slices : (bs : List Bound) → boxes (slices bs) ≡ bs
boxes-slices [] = refl
boxes-slices (b ∷ bs) = ap₂ ◌∷◌ refl (boxes-slices bs)

abbrev assign : Array → List Slice → Array → List Slice → Array
assign out dst chunk src =
    (out.0, λ x. if in_box x (boxes dst) then chunk.1 (move x (boxes dst) (boxes src)) else out.1 x)

-- An array of bytes stands for itself; its size is a field.
abbrev pub functions : NdArray ℕ 1
functions = record {
  Flat = ℕ × (List ℕ → ℕ);
  Arr = Array;
  size = λ f. f.0;
  view = λ f shape. (shape, f.1);
  shape = λ a. a.0;
  get = λ a. a.1;
  assign = assign;
  shape-view = λ f shape _. refl;
  shape-assign = λ out dst chunk src. refl;
  get-assign = λ out chunk dst src x _ _ _. rw (boxes-slices dst, boxes-slices src) refl;
}

-- arr[3:9] in chunks of 4: the chunks 0, 1 and 2, of which 1 is missing.
abbrev bounds : List Bound
bounds = (3, 9) ∷ []

abbrev first_of_place : List ℕ → ℕ
first_of_place [] = 0
first_of_place (i ∷ _) = i

abbrev chunk : ℕ → ℕ × (List ℕ → ℕ)
chunk n = (4, λ x. 100 * n + first_of_place x)

abbrev parts : List (List ℕ × (ℕ × (List ℕ → ℕ)))
parts = ((0 ∷ []), chunk 1) ∷ ((2 ∷ []), chunk 2) ∷ []

abbrev fill : Array
fill = (6 ∷ [], λ x. 7)

-- Element 0 is element 3 of chunk 0, element 1 is missing, element 5 is element 0 of chunk 2.
abbrev elements : Outcome Array → List ℕ
elements (done a) = a.1 (0 ∷ []) ∷ a.1 (1 ∷ []) ∷ a.1 (5 ∷ []) ∷ []
elements (raise e) = []

scatter-parts : elements (scatter functions (4 ∷ []) bounds parts fill) ≡ 103 ∷ 7 ∷ 200 ∷ []
unfolding scatter
scatter-parts = refl

scatter-get_example :
    (result : Array) × (scatter functions (4 ∷ []) bounds parts fill ≡ done result)
    × ((x : List ℕ)
        → Inside x bounds
        → result.1 x
          ≡ element functions
              (4 ∷ [])
              7
              (within x bounds (4 ∷ []))
              (lookup_last functions (unit_of x bounds (4 ∷ [])) parts))
scatter-get_example =
    scatter-get functions (4 ∷ []) bounds (omega arith) parts fill
      ((refl, refl), ((refl, refl), tt)) refl

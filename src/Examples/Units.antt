-- ===== src/Examples/Units.antt =====
-- The geometry of src/czarr/lowlevel/plan.py on an array of shape (10, 7) in chunks of (4, 3).
use czarr.Prelude.{one_if, ℕ, ◌≡◌, refl, true, none, List, [], ◌∷◌, map, arith, done}
use czarr.Prelude.Division.{ceil}
use czarr.Prelude.Int.{pos}
use czarr.Selection.{tuple, Bound, normalize_selection}
use czarr.Selection.Bounds.{as_slice}
use czarr.Plan.{DecodePlan, decode_chunk_shape, grid_shape, selected_units}
use czarr.Plan.Units.{count_unit, meets, selected_units-count}
use czarr.Plan.Box.{chunk_box, chunk_box-selected_units}

abbrev plain : DecodePlan
plain = record {
  shape = 10 ∷ 7 ∷ [];
  itemsize = 2;
  chunk_shape = 4 ∷ 3 ∷ [];
  codecs = [];
  shard = none;
  key_separator = "/";
  key_prefix_c = true;
}

-- arr[3:9, 0:4]
abbrev window : List Bound
window = (3, 9) ∷ (0, 4) ∷ []

grid_plain : grid_shape plain ≡ done (3 ∷ 3 ∷ [])
unfolding grid_shape ceil
grid_plain = refl

units_plain :
    selected_units plain (tuple (map as_slice window))
    ≡ done (
        (0 ∷ 0 ∷ [])
        ∷ (0 ∷ 1 ∷ [])
        ∷ (1 ∷ 0 ∷ [])
        ∷ (1 ∷ 1 ∷ [])
        ∷ (2 ∷ 0 ∷ [])
        ∷ (2 ∷ 1 ∷ [])
        ∷ [])
unfolding selected_units normalize_selection ceil
units_plain = refl

selected_units-count_example :
    (units : List (List ℕ)) × (selected_units plain (tuple (map as_slice window)) ≡ done units)
    × ((us : List ℕ) → count_unit us units ≡ one_if (meets us window (decode_chunk_shape plain)))
unfolding normalize_selection decode_chunk_shape
selected_units-count_example =
    selected_units-count plain (tuple (map as_slice window)) window refl (omega arith) refl

chunk_box-selected_units_example :
    (bs : List Bound) × (chunk_box plain (map pos (2 ∷ 1 ∷ [])) ≡ done bs)
    × (selected_units plain (tuple (map as_slice bs)) ≡ done ((2 ∷ 1 ∷ []) ∷ []))
unfolding decode_chunk_shape ceil
chunk_box-selected_units_example = chunk_box-selected_units plain (2 ∷ 1 ∷ []) (omega arith)

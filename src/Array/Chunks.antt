-- ===== src/Array/Chunks.antt =====
-- The reads of one chunk by `Array` of src/czarr/core/array.py, from its coordinates to the bytes of its
-- file and the elements of the array.
use czarr.Prelude.{
  ℕ, ◌<◌, ◌≡◌, refl, sym, ◌∙◌, inl, true, Option, none, some, List, [], ◌∷◌, map, length, slice,
  take-all, ◌==◌, ==_iff, Every, Outcome, done, arith,
}
use czarr.Prelude.Int.{ℤ, pos}
use czarr.Prelude.Text.{String}
use czarr.Selection.{Bound, tuple, normalize_selection}
use czarr.Selection.Bounds.{as_slice, normalize_selection-as_slice}
use czarr.Plan.{DecodePlan, decode_chunk_shape, selected_units}
use czarr.Plan.Box.{chunk_box, InGrid, chunk_box-InBounds, chunk_box-selected_units}
use czarr.Plan.Keys.{chunk_key}
use czarr.Plan.ShardIndex.{Bytes, Files, NdIndex, Indexes}
use czarr.Plan.Ranges.{plain_ranges, ranges_of, unit_ranges, ranges}
use czarr.Io.{host_read_into, read}
use czarr.Decode.{Chain, parse_chain, NdArray}
use czarr.Decode.Scatter.{Inside}
use czarr.Decode.Pipeline.{Decoders, cut_all, pair_up, unshuffled, unshuffle_all}
use czarr.Decode.Region.{decode_sync-get}
use czarr.Array.{
  default_fused, read_only, retrieve_encoded_chunk, decode, read_array, retrieve_chunk,
}

bounds_eq : (a b : List Bound) → ◌≡◌ {A = Outcome (List Bound)} (done a) (done b) → a ≡ b
bounds_eq a b h = cc

-- The whole of a list as a slice.
slice_whole : (xs : Bytes) → slice xs 0 (length xs) ≡ xs
slice_whole xs = take-all (length xs) xs (omega arith)

-- Reading one whole file and cutting its one member.
read_only-file :
    (files : Files) (path : String) (coords : List ℕ) (content : Bytes)
    → files path ≡ some content
    → read_only files (
        record {
          path = path;
          offset = 0;
          nbytes = length content;
          members = (coords, 0, length content) ∷ [];
        }
        ∷ [])
      ≡ done (some content)
unfolding read host_read_into
read_only-file files path coords content h =
    let same : (length content == length content) ≡ true =
      (==_iff (length content) (length content)).1 refl in
    rw (h, slice_whole content, same) (rw (slice_whole content) refl)

module _ (np : NdIndex) (plan : DecodePlan) (files : Files) (coords : List ℕ)
    (indexes : Indexes np) where
  -- The requests for the one unit of a plan without shards.
  one_range :
      (max_fused max_gap : ℤ) (bs : List Bound)
      → plan.shard ≡ none
      → selected_units plan (tuple (map as_slice bs)) ≡ done (coords ∷ [])
      → ranges np plan files none max_fused max_gap (tuple (map as_slice bs)) indexes
        ≡ (done (plain_ranges plan files (coords ∷ [])), indexes)
  unfolding ranges unit_ranges ranges_of
  one_range max_fused max_gap bs s e = rw (e, s) refl

  only_file :
      (o : Option Bytes)
      → files (chunk_key plan coords) ≡ o
      → read_only files (plain_ranges plan files (coords ∷ [])) ≡ done o
  unfolding plain_ranges
  only_file none h =
      let e : plain_ranges plan files (coords ∷ []) ≡ [] = rw (plain_ranges, h) refl in rw e refl
  only_file (some content) h =
      let e : plain_ranges plan files (coords ∷ [])
          ≡ record {
            path = chunk_key plan coords;
            offset = 0;
            nbytes = length content;
            members = (coords, 0, length content) ∷ [];
          }
            ∷ [] =
        rw (plain_ranges, h) refl in
      rw e (read_only-file files (chunk_key plan coords) coords content h)

  -- For an array without shards and the coordinates of a chunk of its grid, `retrieve_encoded_chunk`
  -- gives the content of the chunk's file, or None where there is no such file, and leaves the cache of
  -- shard indexes as it is.
  pub retrieve_encoded_chunk-chunk_key :
      plan.shard ≡ none
      → InGrid coords (decode_chunk_shape plan) plan.shape
      → retrieve_encoded_chunk np plan files (map pos coords) indexes
        ≡ (done (files (chunk_key plan coords)), indexes)
  unfolding retrieve_encoded_chunk
  retrieve_encoded_chunk-chunk_key s grid =
      let (bs, box, units) = chunk_box-selected_units plan coords grid in
      rw
        (
          box,
          one_range default_fused (pos 0) bs s units,
          only_file (files (chunk_key plan coords)) refl,
        )
        refl

module _ {A : Type 0} {itemsize : ℕ} (cupy : NdArray A itemsize) (dec : Decoders cupy) where
  unshuffled-nil : (o : Option ℕ) → unshuffled cupy dec o [] ≡ done []
  unfolding unshuffle_all
  unshuffled-nil none = refl
  unshuffled-nil (some n) = refl

  -- `decode` of no requests, of which some were selected.
  decode_nothing :
      (plan : DecodePlan) (dtype : String) (fill_value : A) (coords : List ℕ) (chain : Chain)
      (bs : List Bound) (x : List ℕ) (positive : Every (λ c. 0 < c) (decode_chunk_shape plan))
      → parse_chain plan.codecs itemsize ≡ done chain
      → normalize_selection (tuple (map as_slice bs)) plan.shape ≡ done bs
      → selected_units plan (tuple (map as_slice bs)) ≡ done (coords ∷ [])
      → Inside x bs
      → (result : cupy.Arr) × (decode cupy dec plan dtype fill_value [] []
            (tuple (map as_slice bs))
            none
          ≡ done result)
        × (cupy.get result x ≡ fill_value)
  unfolding decode cut_all pair_up
  decode_nothing plan dtype fill_value coords chain bs x positive parsed bounds units inside =
      let (result, e, at) =
        decode_sync-get cupy dec plan fill_value [] [] [] [] bs none chain [] [] (coords ∷ []) x
          positive parsed refl refl (unshuffled-nil chain.shuffle_elementsize) refl tt units tt
          inside (inl refl) in
      (result, rw bounds e, at)

  -- For an array without shards whose codec chain `_Chain` understands and whose chunks have a positive
  -- size on each axis, the read of a chunk of the grid whose file does not exist gives an array whose
  -- elements inside the chunk's box are the fill value.
  pub retrieve_chunk_missing :
      (np : NdIndex) (upload : Bytes → cupy.Flat) (plan : DecodePlan) (dtype : String)
      (fill_value : A) (files : Files) (max_fused max_gap : ℤ) (coords : List ℕ)
      (indexes : Indexes np) (chain : Chain) (bs : List Bound) (x : List ℕ)
      (positive : Every (λ c. 0 < c) (decode_chunk_shape plan))
      → plan.shard ≡ none
      → InGrid coords (decode_chunk_shape plan) plan.shape
      → files (chunk_key plan coords) ≡ none
      → parse_chain plan.codecs itemsize ≡ done chain
      → chunk_box plan (map pos coords) ≡ done bs
      → Inside x bs
      → (result : cupy.Arr) × (retrieve_chunk cupy dec np upload plan dtype fill_value files
            max_fused max_gap
            (map pos coords)
            none
            indexes
          ≡ (done result, indexes))
        × (cupy.get result x ≡ fill_value)
  unfolding retrieve_chunk read_array plain_ranges read
  retrieve_chunk_missing np upload plan dtype fill_value files max_fused max_gap coords indexes
        chain bs x positive s grid absent parsed box inside =
      let (box', e, units) = chunk_box-selected_units plan coords grid in
      let same = bounds_eq box' bs (sym e ∙ box) in
      let units' = rw same at units in
      let inbounds = chunk_box-InBounds plan coords bs grid box in
      let bounds = normalize_selection-as_slice bs plan.shape inbounds in
      let (result, decoded, at) =
        decode_nothing plan dtype fill_value coords chain bs x positive parsed bounds units'
          inside in
      let asked = one_range np plan files coords indexes max_fused max_gap bs s units' in
      let nothing : plain_ranges plan files (coords ∷ []) ≡ [] = rw (plain_ranges, absent) refl in
      (result, rw (box, asked, nothing, decoded) refl, at)

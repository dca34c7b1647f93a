-- ===== src/Decode/Pipeline.antt =====
-- src/czarr/lowlevel/decode.py: `_decode_sync`, from the windows that were read to the selected region.
-- nvCOMP, the blosc decoder and the byte shuffle are the parameter `Decoders`.
use czarr.Prelude.{
  ℕ, ◌+◌, ◌≡◌, Bool, true, false, Option, none, some, List, [], ◌∷◌, ◌++◌, map, length, ltb,
  if◌then◌else◌, Outcome, done, raise, ◌>>=◌, value_error,
}
use czarr.Prelude.Int.{ℤ, pos, sub_ℕ}
use czarr.Prelude.Text.{String, str_eq}
use czarr.Selection.{Bound, Selection, tuple}
use czarr.Selection.Bounds.{as_slice}
use czarr.Plan.{DecodePlan, decode_chunk_shape, selected_units}
use czarr.Plan.Ranges.{ReadRequest}
use czarr.Decode.{Chain, parse_chain, NdArray, scatter, chunk_nbytes, widths}

-- What the code uses of the decoders on flat arrays, and of new arrays: `cut b start stop` is
-- `b[start:stop]`.
pub record Decoders {A : Type 0} {itemsize : ℕ} (cupy : NdArray A itemsize) : Type 0 where
  pub cut : cupy.Flat → ℕ → ℤ → cupy.Flat
  pub blosc : List cupy.Flat → Outcome (List cupy.Flat)
  pub nvcomp : String → ℕ → List cupy.Flat → Outcome (List cupy.Flat)
  pub unshuffle : ℕ → cupy.Flat → Outcome cupy.Flat
  pub full : List ℕ → A → cupy.Arr
  pub empty : List ℕ → cupy.Arr
  pub fill : cupy.Arr → A → cupy.Arr
  pub shape-full : (s : List ℕ) (a : A) → cupy.shape (full s a) ≡ s
  pub shape-empty : (s : List ℕ) → cupy.shape (empty s) ≡ s
  pub shape-fill : (out : cupy.Arr) (a : A) → cupy.shape (fill out a) ≡ cupy.shape out
  pub get-full : (s : List ℕ) (a : A) (x : List ℕ) → cupy.get (full s a) x ≡ a
  pub get-fill : (out : cupy.Arr) (a : A) (x : List ℕ) → cupy.get (fill out a) x ≡ a

module _ {A : Type 0} {itemsize : ℕ} (cupy : NdArray A itemsize) (dec : Decoders cupy) where
  open cupy use {Flat, Arr}

  -- The end of a payload: `intra + payload_len`, without the trailer of a checksum.
  abbrev pub payload_end : Bool → ℕ → ℕ → ℤ
  payload_end true intra length = sub_ℕ (intra + length) 4
  payload_end false intra length = pos (intra + length)

  -- The members of one request: `units` beside `encoded`.
  unfoldable pub cut_members : Bool → Flat → List (List ℕ × ℕ × ℕ) → List (List ℕ × Flat)
  cut_members crc buffer [] = []
  cut_members crc buffer ((coords, intra, length) ∷ members) =
      (coords, dec.cut buffer intra (payload_end crc intra length)) ∷ cut_members crc buffer members

  -- The loop over `zip(requests, buffers, strict=True)`.
  unfoldable pub cut_all : Bool → List ReadRequest → List Flat → Outcome (List (List ℕ × Flat))
  unfolding cut_members
  cut_all crc [] [] = done []
  cut_all crc (q ∷ requests) (b ∷ buffers) = do
    rest ← cut_all crc requests buffers
    done (cut_members crc b q.members ++ rest)
  cut_all crc _ _ = raise value_error

  -- The batched decompression.
  abbrev pub decompress_with : Option String → ℕ → List Flat → Outcome (List Flat)
  decompress_with none nbytes encoded = done encoded
  decompress_with (some name) nbytes encoded =
      if str_eq name "blosc" then dec.blosc encoded else dec.nvcomp name nbytes encoded

  abbrev pub decompress : Option String → ℕ → List Flat → Outcome (List Flat)
  decompress compressor nbytes [] = done []
  decompress compressor nbytes (e ∷ encoded) = decompress_with compressor nbytes (e ∷ encoded)

  unfoldable pub unshuffle_all : ℕ → List Flat → Outcome (List Flat)
  unshuffle_all elementsize [] = done []
  unshuffle_all elementsize (d ∷ decoded) = do
    e ← dec.unshuffle elementsize d
    rest ← unshuffle_all elementsize decoded
    done (e ∷ rest)

  abbrev pub unshuffled : Option ℕ → List Flat → Outcome (List Flat)
  unshuffled none decoded = done decoded
  unshuffled (some elementsize) decoded = unshuffle_all elementsize decoded

  -- `zip(units, decoded, strict=True)`
  unfoldable pub pair_up : List (List ℕ × Flat) → List Flat → Outcome (List (List ℕ × Flat))
  pair_up [] [] = done []
  pair_up (u ∷ units) (d ∷ decoded) = do rest ← pair_up units decoded; done ((u.0, d) ∷ rest)
  pair_up _ _ = raise value_error

  -- The array that is scattered into: with the fill value where some selected unit has no request.
  abbrev pub base : Option Arr → List ℕ → A → Bool → Arr
  base none out_shape fill_value true = dec.full out_shape fill_value
  base none out_shape fill_value false = dec.empty out_shape
  base (some out) out_shape fill_value true = dec.fill out fill_value
  base (some out) out_shape fill_value false = out

  -- The slices `slice(a, b)` of the bounds, as a selection.
  abbrev pub bound_selection : List Bound → Selection
  bound_selection bounds = tuple (map as_slice bounds)

  -- `_decode_sync` behind the choice of the codecs.
  unfoldable pub decode_units :
      DecodePlan → Chain → A → List (List ℕ × Flat) → List Bound → Option Arr → Outcome Arr
  unfolding unshuffle_all pair_up
  decode_units plan chain fill_value units bounds out = do
    let chunk_shape = decode_chunk_shape plan in
        let nbytes = chunk_nbytes chunk_shape itemsize in
        do
          decompressed ← decompress chain.compressor nbytes (map (λ u. u.1) units)
          decoded ← unshuffled chain.shuffle_elementsize decompressed
          selected ← selected_units plan (bound_selection bounds)
          parts ← pair_up units decoded
          scatter cupy chunk_shape bounds parts
              (base out (widths bounds) fill_value (ltb (length units) (length selected)))

  -- `_decode_sync`
  unfoldable pub decode_sync :
      DecodePlan → A → List ReadRequest → List Flat → List Bound → Option Arr → Outcome Arr
  unfolding cut_all decode_units
  decode_sync plan fill_value requests buffers bounds out = do
    chain ← parse_chain plan.codecs itemsize
    units ← cut_all chain.crc32c_trailer requests buffers
    decode_units plan chain fill_value units bounds out

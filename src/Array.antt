-- ===== src/Array.antt =====
-- src/czarr/lowlevel/decode.py: `decode` and `read_array`; src/czarr/core/array.py: the reads of `Array`,
-- which compose the plan, the reads of the files and the decoding.
use czarr.Prelude.{
  ℕ, ◌*◌, ◌^◌, ◌≡◌, Bool, true, false, ◌&&◌, Option, none, some, List, [], ◌∷◌, map, slice,
  if◌then◌else◌, Outcome, done, raise, ◌>>=◌, value_error,
}
use czarr.Prelude.Int.{ℤ, pos}
use czarr.Prelude.Text.{String, str_eq}
use czarr.Selection.{Bound, Selection, tuple, normalize_selection}
use czarr.Selection.Bounds.{as_slice}
use czarr.Plan.{DecodePlan}
use czarr.Plan.Box.{chunk_box}
use czarr.Plan.Keys.{tuple_eq}
use czarr.Plan.ShardIndex.{Bytes, Files, NdIndex, Indexes}
use czarr.Plan.Ranges.{ReadRequest, and_then, ranges}
use czarr.Io.{read}
use czarr.Decode.{NdArray, widths}
use czarr.Decode.Pipeline.{Decoders, decode_sync}
pub mod Chunks
pub mod Wrapper

-- `max_fused_bytes: int = 64 << 20`
abbrev pub default_fused : ℤ
default_fused = pos (64 * 2 ^ 20)

-- `(buffer,) = lowlevel.read(requests)` and `((_, intra, length),) = requests[0].members`
abbrev pub only {ℓ} : {A : Type ℓ} → List A → Outcome A
only (a ∷ []) = done a
only _ = raise value_error

-- The bytes of the one member in the one buffer.
abbrev pub cut_only : List ReadRequest → List Bytes → Outcome Bytes
cut_only [] buffers = raise value_error
cut_only (r ∷ requests) buffers = do
  buffer ← only buffers
  member ← only r.members
  done (slice buffer member.1 member.2)

abbrev pub read_only : Files → List ReadRequest → Outcome (Option Bytes)
read_only files [] = done none
read_only files (r ∷ requests) = do
  buffers ← read files (r ∷ requests)
  bytes ← cut_only (r ∷ requests) buffers
  done (some bytes)

module _ (np : NdIndex) where
  -- `Array.retrieve_encoded_chunk`, with the plan's cache of shard indexes
  unfoldable pub retrieve_encoded_chunk :
      DecodePlan → Files → List ℤ → Indexes np → Outcome (Option Bytes) × Indexes np
  unfolding ranges read chunk_box
  retrieve_encoded_chunk plan files chunk_coords indexes =
      and_then np (chunk_box plan chunk_coords, indexes)
        (λ box indexes₁.
          and_then np
            (ranges np plan files none default_fused (pos 0) (tuple (map as_slice box)) indexes₁)
            (λ requests indexes₂. (read_only files requests, indexes₂)))

module _ {A : Type 0} {itemsize : ℕ} (cupy : NdArray A itemsize) (dec : Decoders cupy) where
  -- `out.shape != out_shape or out.dtype != plan.dtype`, for an array given with its dtype
  abbrev pub check_given : Option (cupy.Arr × String) → List ℕ → String → Outcome (Option cupy.Arr)
  check_given none out_shape dtype = done none
  check_given (some (out, out_dtype)) out_shape dtype =
      if tuple_eq (cupy.shape out) out_shape && str_eq out_dtype dtype
      then done (some out)
      else raise value_error

  -- `decode`, whose stream orders the work and changes no result. The plan's dtype and fill value are
  -- arguments.
  unfoldable pub decode :
      DecodePlan
      → String
      → A
      → List ReadRequest
      → List cupy.Flat
      → Selection
      → Option (cupy.Arr × String)
      → Outcome cupy.Arr
  unfolding normalize_selection decode_sync
  decode plan dtype fill_value requests buffers selection out = do
    bounds ← normalize_selection selection plan.shape
    given ← check_given out (widths bounds) dtype
    decode_sync cupy dec plan fill_value requests buffers bounds given

  -- `read_array` for a plan that is given. `upload` is a buffer of device memory with these bytes.
  module _ (np : NdIndex) (upload : Bytes → cupy.Flat) where
    unfoldable pub read_array :
        DecodePlan
        → String
        → A
        → Files
        → ℤ
        → ℤ
        → Selection
        → Option (cupy.Arr × String)
        → Indexes np
        → Outcome cupy.Arr × Indexes np
    unfolding ranges read decode
    read_array plan dtype fill_value files max_fused max_gap selection out indexes =
        and_then np (ranges np plan files none max_fused max_gap selection indexes)
          (λ requests indexes₁. (
            do
              buffers ← read files requests
              decode plan dtype fill_value requests (map upload buffers) selection out,
            indexes₁,
          ))

    -- `Array.retrieve_chunk`
    unfoldable pub retrieve_chunk :
        DecodePlan
        → String
        → A
        → Files
        → ℤ
        → ℤ
        → List ℤ
        → Option (cupy.Arr × String)
        → Indexes np
        → Outcome cupy.Arr × Indexes np
    unfolding read_array chunk_box
    retrieve_chunk plan dtype fill_value files max_fused max_gap chunk_coords out indexes =
        and_then np (chunk_box plan chunk_coords, indexes)
          (λ box indexes₁.
            read_array plan dtype fill_value files max_fused max_gap (tuple (map as_slice box)) out
              indexes₁)

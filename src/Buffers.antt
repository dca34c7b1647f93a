-- ===== src/Buffers.antt =====
-- src/czarr/core/buffer.py: the buffers of device memory, `CzarrGpuBuffer`, as their bytes. Memory that is
-- new has any bytes.
use czarr.Prelude.{
  ℕ, zero, suc, ◌+◌, ◌≡◌, Bool, true, false, not, ◌&&◌, ◌||◌, List, [], ◌∷◌, ◌++◌, map, length,
  take, drop, ltb, ◌==◌, if◌then◌else◌, Outcome, done, raise, ◌>>=◌, value_error,
}
use czarr.Prelude.Int.{ℤ, pos, negsuc}
use czarr.Plan.ShardIndex.{Bytes}
pub mod Combine

-- The dtypes that the constructor tells apart.
pub data ElementType : Type 0 where
  unsigned_byte signed_byte wider : ElementType

-- An array of the device: its dimensions, its dtype and its bytes.
pub record DeviceArray : Type 0 where
  pub ndim : ℕ
  pub element_type : ElementType
  pub bytes : Bytes

abbrev pub is_byte : ElementType → Bool
is_byte unsigned_byte = true
is_byte signed_byte = true
is_byte wider = false

-- `CzarrGpuBuffer(array_like)`
unfoldable pub new_buffer : DeviceArray → Outcome Bytes
new_buffer arr =
    if not (arr.ndim == 1)
    then raise value_error
    else if not (is_byte arr.element_type)
    then raise value_error
    else done arr.bytes

-- What `cp.empty` gives: an array of the size, with some bytes.
pub record Allocator : Type 0 where
  pub fresh : ℕ → Bytes
  pub length-fresh : (n : ℕ) → length (fresh n) ≡ n

abbrev pub flat_bytes : Bytes → DeviceArray
flat_bytes bytes = record { ndim = 1; element_type = unsigned_byte; bytes = bytes }

-- `create_zero_length`
abbrev pub create_zero_length : Outcome Bytes
create_zero_length = new_buffer (flat_bytes [])

-- `out[offset : offset + n] = p`, for the n bytes of p
abbrev pub put_bytes : Bytes → ℕ → Bytes → Bytes
put_bytes out offset p = take offset out ++ (p ++ drop (offset + length p) out)

-- The loop of `combine` over its parts.
unfoldable pub copy_parts : Bytes → ℕ → List Bytes → Bytes
copy_parts out offset [] = out
copy_parts out offset (p ∷ parts) = copy_parts (put_bytes out offset p) (offset + length p) parts

-- `sum(p.size for p in parts)`
abbrev pub total_size : List Bytes → ℕ
total_size [] = 0
total_size (p ∷ parts) = length p + total_size parts

module _ (memory : Allocator) where
  -- `CzarrGpuBuffer.empty`
  unfoldable pub empty_buffer : ℤ → Outcome Bytes
  unfolding new_buffer
  empty_buffer (negsuc n) = raise value_error
  empty_buffer (pos zero) = create_zero_length
  empty_buffer (pos (suc n)) = new_buffer (flat_bytes (memory.fresh (suc n)))

  -- `CzarrGpuBuffer.from_bytes`
  unfoldable pub from_bytes : Bytes → Outcome Bytes
  unfolding empty_buffer
  from_bytes [] = create_zero_length
  from_bytes (b ∷ host) = do
    out ← empty_buffer (pos (length (b ∷ host)))
    done (put_bytes out 0 (b ∷ host))

  -- `CzarrGpuBuffer.combine`, for the bytes of this buffer and of the others
  unfoldable pub combine : Bytes → List Bytes → Outcome Bytes
  unfolding empty_buffer copy_parts
  combine self others = do
    out ← empty_buffer (pos (total_size (self ∷ others)))
    done (copy_parts out 0 (self ∷ others))

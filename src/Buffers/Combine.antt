-- ===== src/Buffers/Combine.antt =====
-- What `CzarrGpuBuffer.combine` and `from_bytes` of src/czarr/core/buffer.py leave in the new buffer.
use mathlib.Core.List.{append-nil, append_assoc}
use czarr.Prelude.{
  ℕ, zero, suc, ◌+◌, ◌≡◌, refl, sym, ap, ◌∙◌, List, [], ◌∷◌, ◌++◌, length, drop, length-append,
  take-append, drop-append, drop-drop, length-drop, drop-all, done, ◌>>=◌, arith,
}
use czarr.Prelude.Int.{pos}
use czarr.Plan.ShardIndex.{Bytes}
use czarr.Buffers.{new_buffer, Allocator, copy_parts, total_size, empty_buffer, from_bytes, combine}

-- The parts one after the other.
abbrev pub joined : List Bytes → Bytes
joined [] = []
joined (p ∷ parts) = p ++ joined parts

-- Behind what is written, the loop appends the parts.
copy_parts-joined :
    (written rest : Bytes) (parts : List Bytes)
    → length rest ≡ total_size parts
    → copy_parts (written ++ rest) (length written) parts ≡ written ++ joined parts
unfolding copy_parts
copy_parts-joined written [] [] h = refl
copy_parts-joined written (b ∷ rest) [] h = absurd (omega arith)
copy_parts-joined written rest (p ∷ parts) h =
    let front = take-append written rest in
    let back : drop (length written + length p) (written ++ rest) ≡ drop (length p) rest =
      sym (drop-drop (length p) (length written) (written ++ rest))
      ∙ ap (drop (length p)) (drop-append written rest) in
    let left : length (drop (length p) rest) ≡ total_size parts =
      let e = length-drop (length p) rest in omega arith in
    let place : length written + length p ≡ length (written ++ p) = sym (length-append written p) in
    rw
      (
        front,
        back,
        sym (append_assoc written p (drop (length p) rest)),
        place,
        copy_parts-joined (written ++ p) (drop (length p) rest) parts left,
      )
      (append_assoc written p (joined parts))

-- An empty buffer of the total size, filled by the loop.
filled :
    (memory : Allocator) (parts : List Bytes) (n : ℕ)
    → total_size parts ≡ n
    → (empty_buffer memory (pos n) >>= λ out. done (copy_parts out 0 parts)) ≡ done (joined parts)
unfolding empty_buffer new_buffer
filled memory parts zero h = ap done (copy_parts-joined [] [] parts (sym h))
filled memory parts (suc n) h =
    ap done
      (copy_parts-joined [] (memory.fresh (suc n)) parts (memory.length-fresh (suc n) ∙ sym h))

-- The new buffer has the bytes of this buffer and of the others one after the other, whatever was in the
-- memory before.
combine-joined :
    (memory : Allocator) (self : Bytes) (others : List Bytes)
    → combine memory self others ≡ done (joined (self ∷ others))
unfolding combine
combine-joined memory self others = filled memory (self ∷ others) (total_size (self ∷ others)) refl

-- `from_bytes` leaves the host's bytes.
from_bytes_eq : (memory : Allocator) (host : Bytes) → from_bytes memory host ≡ done host
unfolding from_bytes empty_buffer new_buffer
from_bytes_eq memory [] = refl
from_bytes_eq memory (b ∷ host) =
    let fits = memory.length-fresh (suc (length host)) in
    rw
      (
        drop-all (0 + suc (length host)) (memory.fresh (suc (length host))) (omega arith),
        append-nil,
      )
      refl

-- ===== src/Sharding.antt =====
-- src/czarr/codecs/sharding.py: `_coalesced_chunk_fetch`. zarr's shard index and byte getter are
-- parameters; the dictionary that it fills is the list of its assignments.
pub mod Fetch
use czarr.Prelude.{
  ℕ, ◌+◌, ◌-◌, ◌≤◌, ◌≡◌, Bool, true, false, Option, none, some, List, [], ◌∷◌, ◌++◌, map, length,
  get_elem?, ltb, slice, if◌then◌else◌, Outcome, done, raise, ◌>>=◌, value_error, index_error,
  runtime_error,
}
use czarr.Prelude.Int.{ℤ}
use czarr.Coalesce.{ByteRange, Member, FusedRead, coalesce_ranges}

abbrev pub Bytes : Type 0
Bytes = List ℕ

abbrev pub Coords : Type 0
Coords = List ℕ

-- `shard_index.get_chunk_slice`: the first byte of a chunk and the one behind its last, none for a
-- chunk that is not there.
pub record ShardIndex : Type 0 where
  pub chunk_slice : Coords → Option (ℕ × ℕ)
  pub in_order : (c : Coords) (a b : ℕ) → chunk_slice c ≡ some (a, b) → a ≤ b

-- `byte_getter.get` of a RangeByteRequest(start, end)
abbrev pub Getter : Type 0
Getter = ℕ → ℕ → Outcome (Option Bytes)

abbrev pub Located : Type 0
Located = Coords × (ℕ × ℕ)

-- `coords_with_slices`
abbrev pub locate : Coords → Option (ℕ × ℕ) → List Located
locate c none = []
locate c (some s) = (c, s) ∷ []

unfoldable pub coords_with_slices : ShardIndex → List Coords → List Located
coords_with_slices index [] = []
coords_with_slices index (c ∷ coords) =
    locate c (index.chunk_slice c) ++ coords_with_slices index coords

abbrev pub chunk_range : Located → ByteRange
chunk_range x = record { offset = x.1.0; length = x.1.1 - x.1.0 }

-- `[w for w in fused if w.length > 0]`
unfoldable pub nonempty : List FusedRead → List FusedRead
nonempty [] = []
nonempty (w ∷ ws) = let rest = nonempty ws in if ltb 0 w.length then w ∷ rest else rest

-- `asyncio.gather` over the windows: the buffers in their order, or the first error.
unfoldable pub get_windows : Getter → List FusedRead → Outcome (List (Option Bytes))
get_windows get [] = done []
get_windows get (w ∷ ws) = do
  buffer ← get w.offset (w.offset + w.length)
  buffers ← get_windows get ws
  done (buffer ∷ buffers)

-- `[next(nonempty_iter) if w.length > 0 else None for w in fused]`: a `next` behind the end raises.
abbrev pub take_next : Bool → List (Option Bytes) → Outcome (Option Bytes × List (Option Bytes))
take_next false buffers = done (none, buffers)
take_next true [] = raise runtime_error
take_next true (b ∷ buffers) = done (b, buffers)

unfoldable pub realign : List FusedRead → List (Option Bytes) → Outcome (List (Option Bytes))
realign [] buffers = done []
realign (w ∷ ws) buffers = do
  taken ← take_next (ltb 0 w.length) buffers
  rest ← realign ws taken.1
  done (taken.0 ∷ rest)

-- `coords_with_slices[orig_idx][0]`
abbrev pub coords_at : Option Located → Outcome Coords
coords_at none = raise index_error
coords_at (some x) = done x.0

abbrev pub Assigned : Type 0
Assigned = List (Coords × Bytes)

-- The members of one window.
unfoldable pub assign_members : List Located → Bytes → List Member → Outcome Assigned
assign_members located fbuf [] = done []
assign_members located fbuf ((orig_idx, intra, len) ∷ members) = do
  c ← coords_at (get_elem? located orig_idx)
  rest ← assign_members located fbuf members
  done ((c, slice fbuf intra len) ∷ rest)

abbrev pub assign_window : List Located → Option Bytes → FusedRead → Outcome Assigned
assign_window located none w = done []
assign_window located (some fbuf) w = assign_members located fbuf w.members

-- The loop over `zip(materialized, fused, strict=True)`
unfoldable pub assign_windows :
    List Located → List (Option Bytes) → List FusedRead → Outcome Assigned
unfolding assign_members
assign_windows located [] [] = done []
assign_windows located (b ∷ buffers) (w ∷ ws) = do
  some_ ← assign_window located b w
  rest ← assign_windows located buffers ws
  done (some_ ++ rest)
assign_windows located _ _ = raise value_error

abbrev pub fetch_located : Getter → ℤ → ℤ → List Located → Outcome Assigned
fetch_located get max_fused max_gap [] = done []
fetch_located get max_fused max_gap (x ∷ located) = do
  fused ← coalesce_ranges (map chunk_range (x ∷ located)) max_fused max_gap
  buffers ← get_windows get (nonempty fused)
  materialized ← realign fused buffers
  assign_windows (x ∷ located) materialized fused

-- `_coalesced_chunk_fetch`
unfoldable pub coalesced_chunk_fetch : Getter → ShardIndex → ℤ → ℤ → List Coords → Outcome Assigned
unfolding coords_with_slices nonempty get_windows realign assign_windows
coalesced_chunk_fetch get index max_fused max_gap all_coords =
    fetch_located get max_fused max_gap (coords_with_slices index all_coords)

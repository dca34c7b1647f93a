-- ===== src/Plan/ShardIndex.antt =====
-- src/czarr/lowlevel/plan.py: `_shard_index`, the reading and caching of shard indexes. A file is its
-- bytes under its key; the plan's cache of indexes is passed through.
use czarr.Prelude.{
  ℕ, ◌+◌, ◌-◌, ◌*◌, ◌^◌, ◌<◌, ◌≡◌, Option, none, some, List, [], ◌∷◌, slice, take, length,
  if◌then◌else◌, Outcome, done, raise, ◌>>=◌, prod, value_error, file_not_found, os_error,
}
use czarr.Prelude.Text.{String, str_eq}
use czarr.Prelude.Int.{ℤ, pos, negsuc, sub_ℕ}
use czarr.Plan.{ShardSpec, index_has_checksum}
use czarr.Plan.Keys.{tuple_eq}

abbrev pub Bytes : Type 0
Bytes = List ℕ

-- The bytes of the file at a key, if there is one.
abbrev pub Files : Type 0
Files = String → Option Bytes

abbrev pub Fetch : Type 0
Fetch = String → ℤ → ℕ → Outcome Bytes

-- The offset that stands for a missing chunk.
abbrev pub missing : ℕ
missing = 2 ^ 64 - 1

-- A read of the file: seeking before the start raises `OSError`; a read stops at the end of the file.
abbrev pub read_at : Option Bytes → ℤ → ℕ → Outcome Bytes
read_at none offset nbytes = raise file_not_found
read_at (some content) (pos o) nbytes = done (slice content o nbytes)
read_at (some content) (negsuc _) nbytes = raise os_error

-- `_read_host`
abbrev pub read_host : Files → Fetch
read_host files path offset nbytes = read_at (files path) offset nbytes

-- `n_entries * 16 + (4 if self.shard.index_has_checksum else 0)`
abbrev pub index_nbytes : ShardSpec → List ℕ → ℕ
index_nbytes spec per_shard =
    prod per_shard * 16 + (if index_has_checksum spec.index_codecs then 4 else 0)

-- The 64-bit little-endian number of the bytes.
abbrev pub from_le : Bytes → ℕ
from_le [] = 0
from_le (b ∷ bs) = b + 256 * from_le bs

-- The place of an index in an array of that shape, in row-major order.
abbrev pub row_major : List ℕ → List ℕ → ℕ
row_major [] _ = 0
row_major (i ∷ within) (n ∷ shape) = i * prod shape + row_major within shape
row_major (i ∷ within) [] = 0

-- The offset and the size in the entry at a place of an index.
abbrev pub entry_at : Bytes → ℕ → ℕ × ℕ
entry_at raw place = (from_le (slice raw (place * 16) 8), from_le (slice raw (place * 16 + 8) 8))

-- The index has one number for each axis, each below the size of the axis.
abbrev pub Within : List ℕ → List ℕ → Type 0
Within [] [] = Unit
Within (i ∷ within) (n ∷ shape) = (i < n) × Within within shape
Within _ _ = ⊥

-- What the code uses of numpy: `np.frombuffer(raw, dtype="<u8").reshape(*per_shard, 2)`, which
-- raises `ValueError` unless the sizes agree, and `index[within]` of the array that it gives.
pub record NdIndex : Type 1 where
  pub Index : Type 0
  pub parse : Bytes → List ℕ → Outcome Index
  pub entry : Index → List ℕ → Outcome (ℕ × ℕ)
  pub parse_full :
      (raw : Bytes) (shape : List ℕ)
      → length raw ≡ prod shape * 16
      → (index : Index) × (parse raw shape ≡ done index)
        × ((within : List ℕ)
            → Within within shape
            → entry index within ≡ done (entry_at raw (row_major within shape)))
  pub parse_other :
      (raw : Bytes) (shape : List ℕ)
      → (length raw ≡ prod shape * 16 → ⊥)
      → parse raw shape ≡ raise value_error

module _ (np : NdIndex) where
  -- `self._shard_indexes`
  abbrev pub Indexes : Type 0
  Indexes = List (List ℕ × np.Index)

  abbrev pub cached : Indexes → List ℕ → Option np.Index
  cached [] shard = none
  cached ((s, index) ∷ indexes) shard =
      if tuple_eq s shard then some index else cached indexes shard

  -- The fetched bytes as an index, kept under the shard's coordinates. What is raised keeps nothing.
  abbrev pub keep : Indexes → List ℕ → Outcome np.Index → Outcome (Option np.Index) × Indexes
  keep indexes shard (raise e) = (raise e, indexes)
  keep indexes shard (done index) = (done (some index), (shard, index) ∷ indexes)

  -- Where the file has the index: at its end, or at its start.
  abbrev pub index_offset : ShardSpec → List ℕ → ℕ → ℤ
  index_offset spec per_shard file_size =
      if str_eq spec.index_location "end"
      then sub_ℕ file_size (index_nbytes spec per_shard)
      else pos 0

  unfoldable pub fetch_index : ShardSpec → Fetch → List ℕ → String → ℕ → Outcome np.Index
  fetch_index spec fetch per_shard path file_size = do
    raw ← fetch path (index_offset spec per_shard file_size) (index_nbytes spec per_shard)
    np.parse (take (prod per_shard * 16) raw) per_shard

  -- `if cached is not None: return cached`
  abbrev pub cached_or :
      Indexes
      → Option np.Index
      → Outcome (Option np.Index) × Indexes
      → Outcome (Option np.Index) × Indexes
  cached_or indexes none load = load
  cached_or indexes (some index) load = (done (some index), indexes)

  -- What follows `path.stat()`: no file, or the index of the file.
  abbrev pub load_index :
      ShardSpec
      → Fetch
      → List ℕ
      → Indexes
      → List ℕ
      → String
      → Option Bytes
      → Outcome (Option np.Index) × Indexes
  load_index spec fetch per_shard indexes shard path none = (done none, indexes)
  load_index spec fetch per_shard indexes shard path (some content) =
      keep indexes shard (fetch_index spec fetch per_shard path (length content))

  -- `_shard_index`, with the `per_shard` that `units_per_shard` gave.
  unfoldable pub shard_index :
      ShardSpec
      → Files
      → Fetch
      → List ℕ
      → Indexes
      → List ℕ
      → String
      → Outcome (Option np.Index) × Indexes
  unfolding fetch_index
  shard_index spec files fetch per_shard indexes shard path =
      cached_or indexes (cached indexes shard)
        (load_index spec fetch per_shard indexes shard path (files path))

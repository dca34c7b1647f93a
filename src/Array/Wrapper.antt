-- ===== src/Array/Wrapper.antt =====
-- src/czarr/array.py: `CudaZarrArray`, which reads through the lowlevel path where it can and through zarr
-- elsewhere, and keeps the lowlevel array, with its shard indexes, beside the metadata it was made from.
use czarr.Prelude.{
  ℕ, ◌≡◌, Bool, true, false, Option, none, some, List, [], ◌∷◌, length, ◌==◌, if◌then◌else◌, Error,
  Outcome, done, raise, ◌>>=◌, value_error, not_implemented, type_error, index_error,
}
use czarr.Prelude.Int.{pos}
use czarr.Prelude.Text.{String}
use czarr.Selection.{Selection}
use czarr.Selection.Axes.{int_axes}
use czarr.Plan.{DecodePlan}
use czarr.Plan.ShardIndex.{Bytes, Files, NdIndex, Indexes}
use czarr.Decode.{NdArray}
use czarr.Decode.Pipeline.{Decoders}
use czarr.Array.{default_fused, read_array}
pub mod Fresh

-- What the class uses of zarr and cupy: reads and writes of the array in the files, and `squeeze`. A
-- write leaves files, also where it raises.
pub record Zarr (Arr V : Type 0) : Type 0 where
  pub getitem : Files → Selection → Outcome Arr
  pub setitem : Files → Selection → V → Files × Option Error
  pub squeeze : Arr → List ℕ → Outcome Arr

module _ {A V : Type 0} {itemsize : ℕ} (cupy : NdArray A itemsize) (dec : Decoders cupy)
    (np : NdIndex) (upload : Bytes → cupy.Flat) (zarr : Zarr cupy.Arr V) where
  -- czarr.core.Array: its plan, with the plan's cache of shard indexes
  pub record CoreArray : Type 0 where
    pub plan : DecodePlan
    pub dtype : String
    pub fill_value : A
    pub indexes : Indexes np

  -- The files, which of the metadata objects `_async_array` has, and the memo in `__dict__`.
  pub record Wrapped : Type 0 where
    pub files : Files
    pub meta : ℕ
    pub memo : Option (ℕ × Option CoreArray)

  -- What is known of a metadata object: whether the store is a `LocalStore` and its format is 3, and
  -- what `CoreArray.from_metadata` makes of it.
  pub record MetadataObject : Type 0 where
    pub in_scope : Bool
    pub from_metadata : Outcome CoreArray

  -- `except (NotImplementedError, ValueError): core = None`
  abbrev pub core_or_none : Outcome CoreArray → Outcome (Option CoreArray)
  core_or_none (done core) = done (some core)
  core_or_none (raise not_implemented) = done none
  core_or_none (raise value_error) = done none
  core_or_none (raise e) = raise e

  -- `cached[1]` where `cached[0] is meta`
  abbrev pub memo_for : ℕ → Option (ℕ × Option CoreArray) → Option (Option CoreArray)
  memo_for meta none = none
  memo_for meta (some (m, core)) = if m == meta then some core else none

  abbrev pub with_memo : Wrapped → Option CoreArray → Wrapped
  with_memo w core = record { files = w.files; meta = w.meta; memo = some (w.meta, core) }

  abbrev pub build : MetadataObject → Outcome (Option CoreArray)
  build object = if object.in_scope then core_or_none object.from_metadata else done none

  abbrev pub memo_or :
      Option (Option CoreArray)
      → (ℕ → MetadataObject)
      → Wrapped
      → Outcome (Wrapped × Option CoreArray)
  memo_or (some core) objects w = done (w, core)
  memo_or none objects w = do core ← build (objects w.meta); done (with_memo w core, core)

  -- `_fast_array`
  unfoldable pub fast_array : (ℕ → MetadataObject) → Wrapped → Outcome (Wrapped × Option CoreArray)
  fast_array objects w = memo_or (memo_for w.meta w.memo) objects w

  -- `out.squeeze(axis=axes) if axes else out`
  abbrev pub squeezed : cupy.Arr → List ℕ → Outcome cupy.Arr
  squeezed out [] = done out
  squeezed out (axis ∷ axes) = zarr.squeeze out (axis ∷ axes)

  -- The `try` round the lowlevel read.
  abbrev pub read_or_zarr : Outcome cupy.Arr → List ℕ → Outcome cupy.Arr → Outcome cupy.Arr
  read_or_zarr (done out) axes fallback = squeezed out axes
  read_or_zarr (raise not_implemented) axes fallback = fallback
  read_or_zarr (raise type_error) axes fallback = fallback
  read_or_zarr (raise index_error) axes fallback = fallback
  read_or_zarr (raise e) axes fallback = raise e

  -- The indexes that a read leaves in the plan.
  abbrev pub with_indexes : CoreArray → Indexes np → CoreArray
  with_indexes core indexes = record {
    plan = core.plan;
    dtype = core.dtype;
    fill_value = core.fill_value;
    indexes = indexes;
  }

  abbrev pub getitem_with : Wrapped → Selection → Option CoreArray → Outcome cupy.Arr × Wrapped
  getitem_with w selection none = (zarr.getitem w.files selection, w)
  getitem_with w selection (some core) =
      let (result, indexes) =
        read_array cupy dec np upload core.plan core.dtype core.fill_value w.files default_fused
          (pos 0) selection none core.indexes in
      (
        read_or_zarr result (int_axes selection (length core.plan.shape))
            (zarr.getitem w.files selection),
        with_memo w (some (with_indexes core indexes)),
      )

  abbrev pub getitem_after :
      Wrapped → Selection → Outcome (Wrapped × Option CoreArray) → Outcome cupy.Arr × Wrapped
  getitem_after w selection (raise e) = (raise e, w)
  getitem_after w selection (done (w', core)) = getitem_with w' selection core

  -- `CudaZarrArray.__getitem__`
  unfoldable pub getitem : (ℕ → MetadataObject) → Wrapped → Selection → Outcome cupy.Arr × Wrapped
  unfolding fast_array read_array
  getitem objects w selection = getitem_after w selection (fast_array objects w)

  -- `CudaZarrArray.__setitem__`, which drops the memo first: what it raises, and what it leaves.
  unfoldable pub setitem : Wrapped → Selection → V → Option Error × Wrapped
  setitem w selection value =
      let (files, raised) = zarr.setitem w.files selection value in
      (raised, record { files = files; meta = w.meta; memo = none })

-- ===== src/Array/Wrapper/Fresh.antt =====
-- The shard indexes that `CudaZarrArray` of src/czarr/array.py keeps between reads are those of the files.
use czarr.Prelude.{
  ℕ, ◌<◌, ◌≡◌, refl, sym, ap, ◌∙◌, inl, inr, Bool-cases, Option, none, some, List, [], Every, ◌==◌,
  Error, Outcome, done, raise, ◌>>=◌, value_error, index_error, type_error, key_error,
  not_implemented, zero_division, file_not_found, os_error, runtime_error, overflow_error,
  module_not_found, attribute_error, struct_error,
}
use mathlib.Core.Path.{subst}
use czarr.Prelude.Int.{pos}
use czarr.Selection.{Selection}
use czarr.Plan.{ShardSpec, DecodePlan, units_per_shard, selected_units}
use czarr.Plan.ShardIndex.{Bytes, Files, NdIndex, Indexes}
use czarr.Plan.Ranges.{and_then, ranges}
use czarr.Plan.Ranges.Cache.{IsValid, Long}
use czarr.Plan.Ranges.Lookup.{ranges-perm}
use czarr.Decode.{NdArray}
use czarr.Decode.Pipeline.{Decoders}
use czarr.Array.{default_fused, read_array}
use czarr.Array.Wrapper.{
  Zarr, CoreArray, Wrapped, MetadataObject, core_or_none, memo_for, with_memo, build, memo_or,
  fast_array, getitem_with, getitem_after, getitem, setitem,
}

module _ (np : NdIndex) (plan : DecodePlan) (spec : ShardSpec) (per_shard : List ℕ)
    (positive : Every (λ p. 0 < p) per_shard) (files : Files) (sharded : plan.shard ≡ some spec)
    (units_of : units_per_shard plan ≡ done per_shard)
    (long : Long np plan spec files per_shard positive) where
  -- The indexes that `ranges` leaves.
  abbrev Left : Selection → Indexes np → Type 0
  Left selection indexes =
      IsValid np plan spec files per_shard positive
        (ranges np plan files none default_fused (pos 0) selection indexes).1

  Left-raise :
      (selection : Selection) (indexes : Indexes np) (e : _)
      → selected_units plan selection ≡ raise e
      → IsValid np plan spec files per_shard positive indexes
      → Left selection indexes
  unfolding ranges
  Left-raise selection indexes e h valid = rw h valid

  Left-done :
      (selection : Selection) (indexes : Indexes np) (units : List (List ℕ))
      → selected_units plan selection ≡ done units
      → IsValid np plan spec files per_shard positive indexes
      → Left selection indexes
  Left-done selection indexes units h valid =
      let (out, indexes', e, valid', perm) =
        ranges-perm np plan spec files per_shard positive 67108863 0 selection indexes units sharded
          units_of h valid long in
      subst (λ r. IsValid np plan spec files per_shard positive r.1) (sym e) valid'

  -- Whatever the selection, `ranges` leaves indexes of the files.
  ranges-IsValid :
      (o : Outcome (List (List ℕ))) (selection : Selection) (indexes : Indexes np)
      → selected_units plan selection ≡ o
      → IsValid np plan spec files per_shard positive indexes
      → Left selection indexes
  ranges-IsValid (raise e) selection indexes h valid = Left-raise selection indexes e h valid
  ranges-IsValid (done units) selection indexes h valid = Left-done selection indexes units h valid

-- A step that passes the indexes on.
and_then-kept :
    {A B : Type 0} (np : NdIndex) (r : Outcome A × Indexes np) (f : A → Outcome B)
    → (and_then np r (λ a indexes. (f a, indexes))).1 ≡ r.1
and_then-kept np (raise e, indexes) f = refl
and_then-kept np (done a, indexes) f = refl

module _ {A V : Type 0} {itemsize : ℕ} (cupy : NdArray A itemsize) (dec : Decoders cupy)
    (np : NdIndex) (upload : Bytes → cupy.Flat) (zarr : Zarr cupy.Arr V) (plan : DecodePlan)
    (spec : ShardSpec) (per_shard : List ℕ) (positive : Every (λ p. 0 < p) per_shard)
    (sharded : plan.shard ≡ some spec) (units_of : units_per_shard plan ≡ done per_shard)
    (objects : ℕ → MetadataObject cupy dec np upload zarr) where
  abbrev Core : Type 0
  Core = CoreArray cupy dec np upload zarr

  abbrev State : Type 0
  State = Wrapped cupy dec np upload zarr

  -- A lowlevel array of the plan, whose indexes are those of the files.
  abbrev IsFreshCore : Files → Core → Type 0
  IsFreshCore files core =
      (core.plan ≡ plan) × IsValid np plan spec files per_shard positive core.indexes

  -- The memo holds no lowlevel array, or a fresh one.
  abbrev IsFreshMemo : Files → Option (ℕ × Option Core) → Type 0
  IsFreshMemo files none = Unit
  IsFreshMemo files (some (m, none)) = Unit
  IsFreshMemo files (some (m, some core)) = IsFreshCore files core

  abbrev pub IsFresh : State → Type 0
  IsFresh w = IsFreshMemo w.files w.memo

  -- Every metadata object describes the plan: `from_metadata` makes an array of it without indexes.
  abbrev pub Describes : Type 0
  Describes =
      (m : ℕ) (core : Core)
      → (objects m).from_metadata ≡ done core
      → (core.plan ≡ plan) × (core.indexes ≡ [])

  read_array-ranges :
      (files : Files) (core : Core) (selection : Selection)
      → (read_array cupy dec np upload core.plan core.dtype core.fill_value files default_fused
          (pos 0)
          selection
          none
          core.indexes).1
        ≡ (ranges np core.plan files none default_fused (pos 0) selection core.indexes).1
  unfolding read_array
  read_array-ranges files core selection =
      and_then-kept np (ranges np core.plan files none default_fused (pos 0) selection core.indexes)
        _

  read_array-IsValid :
      (files : Files) (core : Core) (selection : Selection)
      → Long np plan spec files per_shard positive
      → IsFreshCore files core
      → IsValid np plan spec files per_shard positive
          (read_array cupy dec np upload core.plan core.dtype core.fill_value files default_fused
            (pos 0)
            selection
            none
            core.indexes).1
  read_array-IsValid files core selection long (same, valid) =
      let left =
        ranges-IsValid np plan spec per_shard positive files sharded units_of long
          (selected_units plan selection) selection core.indexes refl valid in
      let left' =
        subst
          (λ p.
            IsValid np plan spec files per_shard positive
              (ranges np p files none default_fused (pos 0) selection core.indexes).1)
          (sym same) left in
      subst (IsValid np plan spec files per_shard positive)
        (sym (read_array-ranges files core selection)) left'

  no_core :
      (e : Error) (core : Core)
      → core_or_none cupy dec np upload zarr (raise e) ≡ done (some core)
      → ⊥
  no_core value_error core h = cc
  no_core index_error core h = cc
  no_core type_error core h = cc
  no_core key_error core h = cc
  no_core not_implemented core h = cc
  no_core zero_division core h = cc
  no_core file_not_found core h = cc
  no_core os_error core h = cc
  no_core runtime_error core h = cc
  no_core overflow_error core h = cc
  no_core module_not_found core h = cc
  no_core attribute_error core h = cc
  no_core struct_error core h = cc

  -- A memo of nothing, or of an array that is fresh.
  fresh_of :
      (files : Files) (m : ℕ) (c : Option Core)
      → ((core : Core) → c ≡ some core → IsFreshCore files core)
      → IsFreshMemo files (some (m, c))
  fresh_of files m none h = tt
  fresh_of files m (some core) h = h core refl

  build-IsFresh :
      (files : Files) (o : Outcome Core) (core : Core)
      → ((k : Core) → o ≡ done k → (k.plan ≡ plan) × (k.indexes ≡ []))
      → core_or_none cupy dec np upload zarr o ≡ done (some core)
      → IsFreshCore files core
  build-IsFresh files (done k) core describes h =
      let e : k ≡ core = cc in
      let (same, empty) = describes k refl in
      subst (IsFreshCore files) e
        (same, subst (IsValid np plan spec files per_shard positive) (sym empty) tt)
  build-IsFresh files (raise e) core describes h = absurd (no_core e core h)

  object-IsFresh :
      (files : Files) (object : MetadataObject cupy dec np upload zarr) (core : Core)
      → ((k : Core) → object.from_metadata ≡ done k → (k.plan ≡ plan) × (k.indexes ≡ []))
      → build cupy dec np upload zarr object ≡ done (some core)
      → IsFreshCore files core
  object-IsFresh files object core describes h = elim (Bool-cases object.in_scope) [
    | inl t ↦ build-IsFresh files object.from_metadata core describes (simp t at h)
    | inr t ↦ let h' = simp t at h in cc
  ]

  memo_for-IsFresh :
      (files : Files) (memo : Option (ℕ × Option Core)) (meta : ℕ) (core : Core)
      → memo_for cupy dec np upload zarr meta memo ≡ some (some core)
      → IsFreshMemo files memo
      → IsFreshCore files core
  memo_for-IsFresh files none meta core h fresh = cc
  memo_for-IsFresh files (some (m, none)) meta core h fresh = elim (Bool-cases (m == meta)) [
    | inl t ↦ let h' = rw t at h in cc
    | inr t ↦ let h' = rw t at h in cc
  ]
  memo_for-IsFresh files (some (m, some k)) meta core h fresh = elim (Bool-cases (m == meta)) [
    | inl t ↦ let h' = rw t at h in let e : k ≡ core = cc in subst (IsFreshCore files) e fresh
    | inr t ↦ let h' = rw t at h in cc
  ]

  -- What `_fast_array` gives and leaves.
  abbrev IsFreshFast : State → Outcome (State × Option Core) → Type 0
  IsFreshFast w (raise e) = Unit
  IsFreshFast w (done (w', c)) =
      (w'.files ≡ w.files)
      × IsFresh w'
      × ((core : Core) → c ≡ some core → IsFreshCore w'.files core)

  built-IsFresh :
      (w : State) (o : Outcome (Option Core))
      → ((core : Core) → o ≡ done (some core) → IsFreshCore w.files core)
      → IsFreshFast w (o >>= λ core. done (with_memo cupy dec np upload zarr w core, core))
  built-IsFresh w (raise e) h = tt
  built-IsFresh w (done c) h =
      let each : (core : Core) → c ≡ some core → IsFreshCore w.files core =
        λ core e. h core (ap done e) in
      (refl, fresh_of w.files w.meta c each, each)

  memo_or-IsFresh :
      (o : Option (Option Core)) (w : State)
      → Describes
      → memo_for cupy dec np upload zarr w.meta w.memo ≡ o
      → IsFresh w
      → IsFreshFast w (memo_or cupy dec np upload zarr o objects w)
  memo_or-IsFresh (some c) w describes m fresh =
      (refl, fresh, λ core e. memo_for-IsFresh w.files w.memo w.meta core (m ∙ ap some e) fresh)
  memo_or-IsFresh none w describes m fresh =
      built-IsFresh w (build cupy dec np upload zarr (objects w.meta))
        (λ core h. object-IsFresh w.files (objects w.meta) core (describes w.meta) h)

  getitem_with-IsFresh :
      (w : State) (selection : Selection) (c : Option Core)
      → Long np plan spec w.files per_shard positive
      → IsFresh w
      → ((core : Core) → c ≡ some core → IsFreshCore w.files core)
      → IsFresh (getitem_with cupy dec np upload zarr w selection c).1
  getitem_with-IsFresh w selection none long fresh each = fresh
  getitem_with-IsFresh w selection (some core) long fresh each =
      let now = each core refl in (now.0, read_array-IsValid w.files core selection long now)

  getitem_after-IsFresh :
      (w : State) (selection : Selection) (o : Outcome (State × Option Core))
      → Long np plan spec w.files per_shard positive
      → IsFresh w
      → IsFreshFast w o
      → IsFresh (getitem_after cupy dec np upload zarr w selection o).1
  getitem_after-IsFresh w selection (raise e) long fresh fast = fresh
  getitem_after-IsFresh w selection (done (w', c)) long fresh (same, fresh', each) =
      getitem_with-IsFresh w' selection c
        (subst (λ files. Long np plan spec files per_shard positive) (sym same) long) fresh' each

  getitem-IsFresh :
      (w : State) (selection : Selection)
      → Describes
      → Long np plan spec w.files per_shard positive
      → IsFresh w
      → IsFresh (getitem cupy dec np upload zarr objects w selection).1
  unfolding getitem fast_array
  getitem-IsFresh w selection describes long fresh =
      getitem_after-IsFresh w selection (fast_array cupy dec np upload zarr objects w) long fresh
        (memo_or-IsFresh (memo_for cupy dec np upload zarr w.meta w.memo) w describes refl fresh)

  -- Reads of a sharded array through the wrapper, while its files are as long as their indexes, and
  -- writes, also failing ones, which leave any files.
  pub data Reach : State → State → Type 0 where
    stay : (w : State) → Reach w w
    read :
        (w w' : State) (selection : Selection)
        → Reach w w'
        → Long np plan spec w'.files per_shard positive
        → Reach w (getitem cupy dec np upload zarr objects w' selection).1
    write :
        (w w' : State) (selection : Selection) (value : V)
        → Reach w w'
        → Reach w (setitem cupy dec np upload zarr w' selection value).1

  -- After any reads and writes of a sharded array through one wrapper, from one without a memo, the shard
  -- indexes that it keeps are those of the files as they are then. The conditions: the metadata
  -- describes the plan, and at each read every file is as long as an index.
  pub Reach-IsFresh : (w w' : State) → Describes → w.memo ≡ none → Reach w w' → IsFresh w'
  unfolding setitem
  Reach-IsFresh w _ describes empty (stay _) = subst (IsFreshMemo w.files) (sym empty) tt
  Reach-IsFresh w _ describes empty (read _ w' selection r long) =
      getitem-IsFresh w' selection describes long (Reach-IsFresh w w' describes empty r)
  Reach-IsFresh w _ describes empty (write _ w' selection value r) = tt

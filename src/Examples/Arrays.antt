-- ===== src/Examples/Arrays.antt =====
-- Arrays of a few elements: one chunk of a plain array, and the wrapper round a sharded one.
use czarr.Prelude.{
  ℕ, ◌≡◌, refl, sym, ap, true, none, some, [], ◌∷◌, get_elem?, Every, arith, if◌then◌else◌, Outcome,
  done, raise, not_implemented,
}
use czarr.Prelude.Int.{pos, negsuc}
use czarr.Prelude.Text.{str_eq}
use czarr.Prelude.Division.{ceil}
use czarr.Selection.{tuple, integer, ellipsis, normalize_selection}
use czarr.Selection.Axes.{int_axes, int_axes-normalize_selection}
use czarr.Plan.{DecodePlan, decode_chunk_shape, units_per_shard}
use czarr.Plan.Box.{chunk_box}
use czarr.Plan.Keys.{chunk_key}
use czarr.Plan.ShardIndex.{Bytes, Files}
use czarr.Decode.{no_chain}
use czarr.Array.{default_fused, retrieve_encoded_chunk, retrieve_chunk}
use czarr.Array.Chunks.{retrieve_encoded_chunk-chunk_key, retrieve_chunk_missing}
use czarr.Array.Wrapper.{Zarr, CoreArray, Wrapped, MetadataObject, getitem, setitem}
use czarr.Array.Wrapper.Fresh.{IsFresh, Reach, stay, read, write, Reach-IsFresh}
use czarr.Examples.Chunks.{Array, functions}
use czarr.Examples.Reads.{byte_index, spec, files-Long}
use czarr.Examples.Reads.{plan as sharded, files as shards}
use czarr.Examples.Region.{plain_decoders, no_codecs}

abbrev plain : DecodePlan
plain = record {
  shape = 10 ∷ [];
  itemsize = 1;
  chunk_shape = 4 ∷ [];
  codecs = [];
  shard = none;
  key_separator = "/";
  key_prefix_c = true;
}

abbrev chunks : Files
chunks path = if str_eq path "c/2" then some (5 ∷ 6 ∷ 0 ∷ 0 ∷ []) else none

retrieve_encoded_chunk-chunk_key_example :
    retrieve_encoded_chunk byte_index plain chunks (pos 2 ∷ []) []
    ≡ (done (some (5 ∷ 6 ∷ 0 ∷ 0 ∷ [])), [])
unfolding chunk_key decode_chunk_shape ceil
retrieve_encoded_chunk-chunk_key_example =
    retrieve_encoded_chunk-chunk_key byte_index plain chunks (2 ∷ []) [] refl (omega arith)

abbrev upload : Bytes → functions.Flat
upload bytes = (4, λ x. 7)

retrieve_chunk_missing_example :
    (result : Array) × (retrieve_chunk functions plain_decoders byte_index upload plain "uint8" 99
        chunks default_fused
        (pos 0)
        (pos 1 ∷ [])
        none
        []
      ≡ (done result, []))
    × (result.1 (3 ∷ []) ≡ 99)
unfolding chunk_key decode_chunk_shape ceil chunk_box
retrieve_chunk_missing_example =
    retrieve_chunk_missing functions plain_decoders byte_index upload plain "uint8" 99 chunks
      default_fused (pos 0) (1 ∷ []) [] no_chain ((4, 8) ∷ []) (3 ∷ []) (omega arith, tt) refl
      (omega arith) refl no_codecs refl (omega arith, tt)

-- arr[-1, ..., 0] of an array of shape (5, 6, 7)
int_axes-normalize_selection_example :
    Every
      (λ axis. get_elem? {A = ℕ} (1 ∷ 6 ∷ 1 ∷ []) axis ≡ some 1)
      (int_axes (tuple (integer (negsuc 0) ∷ ellipsis ∷ integer (pos 0) ∷ [])) 3)
int_axes-normalize_selection_example =
    int_axes-normalize_selection (tuple (integer (negsuc 0) ∷ ellipsis ∷ integer (pos 0) ∷ []))
      (5 ∷ 6 ∷ 7 ∷ []) ((4, 5) ∷ (0, 6) ∷ (0, 1) ∷ []) (unfold normalize_selection in refl)

-- zarr whose writes leave the files and raise.
abbrev zarr : Zarr Array ℕ
zarr = record {
  getitem = λ files selection. raise not_implemented;
  setitem = λ files selection value. (files, some not_implemented);
  squeeze = λ out axes. done out;
}

abbrev objects : ℕ → MetadataObject functions plain_decoders byte_index upload zarr
objects m = record {
  in_scope = true;
  from_metadata = done (record { plan = sharded; dtype = "uint8"; fill_value = 0; indexes = [] });
}

abbrev opened : Wrapped functions plain_decoders byte_index upload zarr
opened = record { files = shards; meta = 0; memo = none }

abbrev after : Wrapped functions plain_decoders byte_index upload zarr
after =
    (getitem functions plain_decoders byte_index upload zarr objects
      (setitem functions plain_decoders byte_index upload zarr opened (tuple []) 1).1 (tuple [])).1

two_units : units_per_shard sharded ≡ done (2 ∷ [])
unfolding units_per_shard
two_units = refl

abbrev Core : Type 0
Core = CoreArray functions plain_decoders byte_index upload zarr

abbrev core : Core
core = record { plan = sharded; dtype = "uint8"; fill_value = 0; indexes = [] }

describes : (c : Core) → Outcome.done core ≡ done c → (c.plan ≡ sharded) × (c.indexes ≡ [])
describes c e =
    let same : core ≡ c = cc in (ap (λ k. k.plan) (sym same), ap (λ k. k.indexes) (sym same))

-- A failing write and then a read of everything.
after-Reach :
    Reach functions plain_decoders byte_index upload zarr sharded spec
      (2 ∷ [])
      (omega arith, tt)
      refl
      two_units
      objects
      opened
      after
unfolding setitem getitem
after-Reach =
    read opened (setitem functions plain_decoders byte_index upload zarr opened (tuple []) 1).1
      (tuple []) (write opened opened (tuple []) 1 (stay opened)) (unfold setitem in files-Long)

Reach-IsFresh_example :
    IsFresh functions plain_decoders byte_index upload zarr sharded spec
      (2 ∷ [])
      (omega arith, tt)
      refl
      two_units
      objects
      after
Reach-IsFresh_example =
    Reach-IsFresh functions plain_decoders byte_index upload zarr sharded spec (2 ∷ [])
      (omega arith, tt) refl two_units objects opened after (λ m c e. describes c e) refl
      after-Reach

-- ===== src/Examples/Metadata.antt =====
-- The document of a sharded array, written and parsed.
use czarr.Prelude.{
  ℕ, ◌≡◌, refl, true, Option, none, some, [], ◌∷◌, arith, if◌then◌else◌, done, raise, key_error,
  value_error,
}
use czarr.Prelude.Text.{String, str_eq}
use czarr.Plan.{Codec, DecodePlan}
use czarr.Plan.Metadata.{literal, text, nan, plan_from_metadata}
use czarr.Plan.Described.{metadata_of, plan_from_metadata-metadata_of}

abbrev dtypes : Option String → Option ℕ
dtypes none = some 8
dtypes (some name) = if str_eq name "float32" then some 4 else none

abbrev zstd : Codec
zstd = record { name = some "zstd"; endian = none; elementsize = none }

abbrev sharded : DecodePlan
sharded = record {
  shape = 16 ∷ 16 ∷ [];
  itemsize = 4;
  chunk_shape = 8 ∷ 16 ∷ [];
  codecs = zstd ∷ [];
  shard = some (record {
    inner_chunk_shape = 4 ∷ 4 ∷ [];
    codecs = zstd ∷ [];
    index_location = "start";
    index_codecs = [];
  });
  key_separator = "/";
  key_prefix_c = true;
}

plan_from_metadata-metadata_of_example :
    plan_from_metadata dtypes (metadata_of sharded "float32" (text "NaN")) ≡ done (sharded, nan)
plan_from_metadata-metadata_of_example =
    plan_from_metadata-metadata_of dtypes sharded "float32" (text "NaN") nan refl
      (refl, (omega arith, refl, (omega arith, refl, tt))) refl

-- Without a shape, and with inner chunks that do not divide the shard.
no_shape :
    plan_from_metadata dtypes (record (metadata_of sharded "float32" (literal 0)) { shape = none })
    ≡ raise key_error
unfolding plan_from_metadata
no_shape = refl

uneven :
    plan_from_metadata dtypes
      (metadata_of (record sharded { chunk_shape = 6 ∷ 16 ∷ [] }) "float32" (literal 0))
    ≡ raise value_error
unfolding plan_from_metadata
uneven = refl

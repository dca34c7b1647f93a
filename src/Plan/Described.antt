-- ===== src/Plan/Described.antt =====
-- The zarr.json document of a plan, and that parsing it gives the plan.
use czarr.Prelude.{
  ℕ, ◌%◌, ◌<◌, ◌≡◌, refl, ap, Bool, true, false, Option, none, some, List, [], ◌∷◌, map, ◌==◌,
  if◌then◌else◌, arith, done,
}
use czarr.Prelude.Text.{String}
use czarr.Plan.{Codec, ShardSpec, DecodePlan, has_name}
use czarr.Plan.Metadata.{
  plain, FillEntry, Fill, CodecEntry, Metadata, check_divides, parse_codecs, parse_fill,
  plan_from_metadata,
}

-- The codec pipeline of an array, as zarr writes it: the codecs, or one that holds them.
abbrev pub codecs_of : Option ShardSpec → List Codec → List CodecEntry
codecs_of none codecs = map (λ c. record { codec = c; configuration = none }) codecs
codecs_of (some s) codecs =
    record {
      codec = record { name = some "sharding_indexed"; endian = none; elementsize = none };
      configuration = some (record {
        chunk_shape = some s.inner_chunk_shape;
        codecs = some s.codecs;
        index_location = some s.index_location;
        index_codecs = some s.index_codecs;
      });
    }
    ∷ []

abbrev pub metadata_of : DecodePlan → String → FillEntry → Metadata
metadata_of p dtype_name fill = record {
  zarr_format = some 3;
  node_type = some "array";
  shape = some p.shape;
  data_type = some (plain dtype_name);
  chunk_grid = some (record { name = some "regular"; chunk_shape = some p.chunk_shape });
  chunk_key_encoding = some (record {
    name = some (if p.key_prefix_c then "default" else "v2");
    separator = some p.key_separator;
  });
  codecs = some (codecs_of p.shard p.codecs);
  fill_value = some fill;
}

-- Each inner extent is positive and divides that of the shard.
abbrev pub Divides : List ℕ → List ℕ → Type 0
Divides [] [] = Unit
Divides (s ∷ shape) (c ∷ inner) = (0 < c) × (s % c ≡ 0) × Divides shape inner
Divides _ _ = ⊥

abbrev pub NotSharded : List Codec → Type 0
NotSharded [] = Unit
NotSharded (c ∷ codecs) = has_name "sharding_indexed" c ≡ false

-- A plan without shards does not begin with the sharding codec; one with shards decodes with their
-- codecs, and its inner chunks divide the shard.
abbrev pub IsConsistent : List ℕ → Option ShardSpec → List Codec → Type 0
IsConsistent chunk_shape none codecs = NotSharded codecs
IsConsistent chunk_shape (some s) codecs =
    (s.codecs ≡ codecs) × Divides chunk_shape s.inner_chunk_shape

check_divides-Divides :
    (shape inner : List ℕ) → Divides shape inner → check_divides shape inner ≡ done tt
unfolding check_divides
check_divides-Divides [] [] h = refl
check_divides-Divides [] (c ∷ inner) h = absurd h
check_divides-Divides (s ∷ shape) [] h = absurd h
check_divides-Divides (s ∷ shape) (c ∷ inner) (pos, whole, rest) =
    let some_ : (c == 0) ≡ false = ground arith in
    let exact : (s % c == 0) ≡ true = ground arith in
    rw (some_, exact) (check_divides-Divides shape inner rest)

codecs-plain :
    (codecs : List Codec) → map (λ (x : CodecEntry). x.codec) (codecs_of none codecs) ≡ codecs
codecs-plain [] = refl
codecs-plain (c ∷ codecs) = ap (◌∷◌ c) (codecs-plain codecs)

parse_codecs-codecs_of :
    (chunk_shape : List ℕ) (shard : Option ShardSpec) (codecs : List Codec)
    → IsConsistent chunk_shape shard codecs
    → parse_codecs chunk_shape (codecs_of shard codecs) ≡ done (shard, codecs)
unfolding parse_codecs
parse_codecs-codecs_of chunk_shape none [] h = refl
parse_codecs-codecs_of chunk_shape none (c ∷ codecs) h =
    rw h (ap (λ cs. done (none, c ∷ cs)) (codecs-plain codecs))
parse_codecs-codecs_of chunk_shape (some s) codecs (same, divides) =
    rw (check_divides-Divides chunk_shape s.inner_chunk_shape divides)
      (ap (λ cs. done (some s, cs)) same)

-- Parsing the document of a plan gives back the plan and its fill value. The conditions: numpy knows the
-- dtype under its name, the plan is consistent, and the fill value is one that is understood.
pub plan_from_metadata-metadata_of :
    (dtype : Option String → Option ℕ) (p : DecodePlan) (dtype_name : String) (fill : FillEntry)
    (f : Fill)
    → dtype (some dtype_name) ≡ some p.itemsize
    → IsConsistent p.chunk_shape p.shard p.codecs
    → parse_fill fill ≡ done f
    → plan_from_metadata dtype (metadata_of p dtype_name fill) ≡ done (p, f)
unfolding plan_from_metadata
plan_from_metadata-metadata_of dtype p dtype_name fill f known consistent filled =
    by_prefix p.key_prefix_c
  where
    by_prefix :
        (prefix : Bool)
        → plan_from_metadata dtype
            (metadata_of (record p { key_prefix_c = prefix }) dtype_name fill)
          ≡ done (record p { key_prefix_c = prefix }, f)
    by_prefix true =
        let parsed = parse_codecs-codecs_of p.chunk_shape p.shard p.codecs consistent in
        rw (known, parsed, filled) refl
    by_prefix false =
        let parsed = parse_codecs-codecs_of p.chunk_shape p.shard p.codecs consistent in
        rw (known, parsed, filled) refl

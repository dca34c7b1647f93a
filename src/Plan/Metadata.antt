-- ===== src/Plan/Metadata.antt =====
-- src/czarr/lowlevel/plan.py: `plan_from_metadata` and `_parse_dtype`. A zarr.json document is a record of
-- the entries that the code reads, each of which may be missing. numpy's names of dtypes are a parameter.
use czarr.Prelude.{
  ℕ, ◌%◌, Bool, false, ◌&&◌, ◌||◌, not, Option, none, some, List, [], ◌∷◌, map, ◌==◌, if◌then◌else◌,
  Outcome, done, raise, ◌>>=◌, value_error, key_error, not_implemented, zero_division,
}
use czarr.Prelude.Text.{String, str_eq}
use czarr.Plan.{Codec, ShardSpec, DecodePlan, has_name}

-- `data_type` is a name, or a dictionary that may have one.
pub data DataType : Type 0 where
  plain : String → DataType
  entry : Option String → DataType

-- The fill value: a JSON value that numpy takes, or a string.
pub data FillEntry : Type 0 where
  literal : ℕ → FillEntry
  text : String → FillEntry

-- The plan's fill value.
pub data Fill : Type 0 where
  value : ℕ → Fill
  nan infinity neg_infinity : Fill

pub record Grid : Type 0 where
  pub name : Option String
  pub chunk_shape : Option (List ℕ)

pub record KeyEncoding : Type 0 where
  pub name : Option String
  pub separator : Option String

-- The `configuration` of a sharding codec.
pub record ShardingConfig : Type 0 where
  pub chunk_shape : Option (List ℕ)
  pub codecs : Option (List Codec)
  pub index_location : Option String
  pub index_codecs : Option (List Codec)

pub record CodecEntry : Type 0 where
  pub codec : Codec
  pub configuration : Option ShardingConfig

pub record Metadata : Type 0 where
  pub zarr_format : Option ℕ
  pub node_type : Option String
  pub shape : Option (List ℕ)
  pub data_type : Option DataType
  pub chunk_grid : Option Grid
  pub chunk_key_encoding : Option KeyEncoding
  pub codecs : Option (List CodecEntry)
  pub fill_value : Option FillEntry

-- `d[key]` and `d.get(key, default)`
abbrev pub required {ℓ} : {A : Type ℓ} → Option A → Outcome A
required none = raise key_error
required (some a) = done a

abbrev pub with_default {ℓ} : {A : Type ℓ} → Option A → A → A
with_default none default = default
with_default (some a) default = a

abbrev pub is_string : Option String → String → Bool
is_string none s = false
is_string (some t) s = str_eq t s

abbrev pub is_number : Option ℕ → ℕ → Bool
is_number none n = false
is_number (some m) n = m == n

-- `_parse_dtype`, as the item size: `dtype` is `np.dtype`, none where it raises TypeError.
abbrev pub dtype_name : DataType → Option String
dtype_name (plain name) = some name
dtype_name (entry name) = name

abbrev pub known_size : Option ℕ → Outcome ℕ
known_size none = raise not_implemented
known_size (some itemsize) = done itemsize

-- The test that the inner chunks divide the shard, over `zip(..., strict=True)`.
unfoldable pub check_divides : List ℕ → List ℕ → Outcome (Unit {0})
check_divides [] [] = done tt
check_divides (s ∷ shape) (c ∷ inner) =
    if c == 0
    then raise zero_division
    else if not (s % c == 0)
    then raise value_error
    else check_divides shape inner
check_divides _ _ = raise value_error

abbrev pub shard_of : ShardingConfig → List ℕ → ShardSpec
shard_of config inner = record {
  inner_chunk_shape = inner;
  codecs = with_default config.codecs [];
  index_location = with_default config.index_location "end";
  index_codecs = with_default config.index_codecs [];
}

-- The shard's spec and the codecs that decode a unit.
unfoldable pub parse_codecs : List ℕ → List CodecEntry → Outcome (Option ShardSpec × List Codec)
unfolding check_divides
parse_codecs chunk_shape [] = done (none, [])
parse_codecs chunk_shape (c ∷ codecs) =
    if has_name "sharding_indexed" c.codec
    then (do
      config ← required c.configuration
      inner ← required config.chunk_shape
      _ ← check_divides chunk_shape inner
      done (some (shard_of config inner), with_default config.codecs []))
    else done (none, map (λ x. x.codec) (c ∷ codecs))

abbrev pub parse_fill : FillEntry → Outcome Fill
parse_fill (literal n) = done (value n)
parse_fill (text s) =
    if str_eq s "NaN"
    then done nan
    else if str_eq s "Infinity"
    then done infinity
    else if str_eq s "-Infinity"
    then done neg_infinity
    else raise not_implemented

abbrev pub default_encoding : KeyEncoding
default_encoding = record { name = some "default"; separator = none }

module _ (dtype : Option String → Option ℕ) where
  unfoldable pub plan_from_metadata : Metadata → Outcome (DecodePlan × Fill)
  unfolding parse_codecs
  plan_from_metadata m =
      if not (is_number m.zarr_format 3 && is_string m.node_type "array")
      then raise value_error
      else do
        shape ← required m.shape
        data_type ← required m.data_type
        itemsize ← known_size (dtype (dtype_name data_type))
        grid ← required m.chunk_grid
        chunk_shape ←
            if is_string grid.name "regular"
            then required grid.chunk_shape
            else raise not_implemented
        let key_enc = with_default m.chunk_key_encoding default_encoding in
            let key_name = with_default key_enc.name "default" in
            if not (str_eq key_name "default" || str_eq key_name "v2")
            then raise not_implemented
            else let key_prefix_c = str_eq key_name "default" in
              do
                parsed ← parse_codecs chunk_shape (with_default m.codecs [])
                fill ← parse_fill (with_default m.fill_value (literal 0))
                done (
                  record {
                    shape = shape;
                    itemsize = itemsize;
                    chunk_shape = chunk_shape;
                    codecs = parsed.1;
                    shard = parsed.0;
                    key_separator =
                        with_default key_enc.separator (if key_prefix_c then "/" else ".");
                    key_prefix_c = key_prefix_c;
                  },
                  fill,
                )

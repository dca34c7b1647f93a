-- ===== src/Codecs/Metadata/Schemas.antt =====
-- The metadata of the codecs that other libraries read too: src/czarr/codecs/compressors/lz4.py, zstd.py,
-- gzip.py, zlib.py and blosc.py, and the filters of src/czarr/codecs/filters.
use czarr.Prelude.{
  zero, Bool, true, false, not, Option, none, some, List, [], ◌∷◌, Outcome, done, raise, ◌>>=◌,
  type_error, one_if,
}
use czarr.Prelude.Int.{ℤ, pos}
use czarr.Prelude.Text.{String, str_eq}
use czarr.Configure.{Mapping}
use czarr.Configure.Backends.{resolve_backend_for_filter}
use czarr.Codecs.Json.{
  Json, null, bool, int, str, array, object, no_items, Entries, no_entries, entry, get_entry,
  codec_config,
}
use czarr.Codecs.Metadata.{
  Value, plain, policy, Field, CodecClass, metadata, json_of, keywords_of, construct,
  checksum_value,
}
use czarr.Codecs.Metadata.Names.{attr, own_field, lz4, blosc}

-- Python's conversions of values: `int(s)` and `str(value)` of what is no string.
pub record Conversions : Type 0 where
  pub int_str : String → Outcome ℤ
  pub show : Json → String

-- `bool(value)`
abbrev pub is_true : Value → Bool
is_true (plain null) = false
is_true (plain (bool b)) = b
is_true (plain (int (pos zero))) = false
is_true (plain (int _)) = true
is_true (plain (str s)) = not (str_eq s "")
is_true (plain (array no_items)) = false
is_true (plain (array _)) = true
is_true (plain (object no_entries)) = false
is_true (plain (object _)) = true
is_true (policy c) = true

abbrev pub json_or : Option Json → Json → Json
json_or none default = default
json_or (some v) default = v

-- A class of filters: its fields besides `backend`, and the backends it supports.
pub record FilterClass : Type 0 where
  pub cls : CodecClass
  pub supported : List String
  pub default : String

abbrev pub shuffle : FilterClass
shuffle = record {
  cls = record { codec_name = "shuffle"; fields = own_field "elementsize" (int (pos 4)) ∷ [] };
  supported = "cupy" ∷ [];
  default = "cupy";
}

abbrev pub delta : FilterClass
delta = record {
  cls = record {
    codec_name = "delta";
    fields = own_field "dtype" (str "<f4") ∷ own_field "astype" null ∷ [];
  };
  supported = "cupy" ∷ "cccl" ∷ [];
  default = "cupy";
}

abbrev pub bitround_fields : List Field
bitround_fields = own_field "keepbits" (int (pos 12)) ∷ []

-- An instance with the backend that `__post_init__` resolves, under the process's overrides.
unfoldable pub make_filter : Mapping → FilterClass → Entries → Outcome (List Field × String)
unfolding resolve_backend_for_filter construct
make_filter overrides filter config = do
  fields ← construct filter.cls.fields (keywords_of config)
  backend ←
      resolve_backend_for_filter overrides filter.cls.codec_name none filter.supported
        filter.default
  done (fields, backend)

-- `Shuffle.from_dict` and `Delta.from_dict`
unfoldable pub filter_from_dict : Mapping → FilterClass → Entries → Outcome (List Field × String)
unfolding make_filter codec_config
filter_from_dict overrides filter data' = do
  config ← codec_config data' ("backend" ∷ [])
  make_filter overrides filter config

-- `Shuffle.to_dict`
unfoldable pub shuffle_to_dict : List Field → Outcome Entries
shuffle_to_dict self = do
  elementsize ← attr self "elementsize"
  done (metadata "shuffle" (entry "elementsize" (json_of elementsize) no_entries))

module _ (python : Conversions) where
  -- `int(value)`
  abbrev pub to_int : Value → Outcome ℤ
  to_int (plain (int n)) = done n
  to_int (plain (bool b)) = done (pos (one_if b))
  to_int (plain (str s)) = python.int_str s
  to_int (plain _) = raise type_error
  to_int (policy c) = python.int_str (checksum_value c)

  -- `str(value)`
  abbrev pub to_str : Value → String
  to_str (plain (str s)) = s
  to_str (plain v) = python.show v
  to_str (policy c) = checksum_value c

  abbrev pub int_attr : List Field → String → Outcome Json
  int_attr self name = do v ← attr self name; n ← to_int v; done (int n)

  abbrev pub int_entry : String → List Field → String → Outcome Entries
  int_entry codec_name self name = do
    v ← int_attr self name
    done (metadata codec_name (entry name v no_entries))

  -- `LZ4.to_dict`
  unfoldable pub lz4_to_dict : List Field → Outcome Entries
  lz4_to_dict self = int_entry "lz4" self "acceleration"

  -- `Gzip.to_dict`
  unfoldable pub gzip_to_dict : List Field → Outcome Entries
  gzip_to_dict self = int_entry "gzip" self "level"

  -- `Zlib.to_dict`
  unfoldable pub zlib_to_dict : List Field → Outcome Entries
  zlib_to_dict self = int_entry "zlib" self "level"

  -- `BitRound.to_dict`
  unfoldable pub bitround_to_dict : List Field → Outcome Entries
  bitround_to_dict self = int_entry "bitround" self "keepbits"

  -- `Zstd.to_dict`
  unfoldable pub zstd_to_dict : List Field → Outcome Entries
  zstd_to_dict self = do
    level ← int_attr self "level"
    checksum ← attr self "checksum"
    done (
        metadata "zstd"
          (entry "level" level (entry "checksum" (bool (is_true checksum)) no_entries)))

  -- `Blosc.to_dict`
  unfoldable pub blosc_to_dict : List Field → Outcome Entries
  blosc_to_dict self = do
    cname ← attr self "cname"
    clevel ← int_attr self "clevel"
    shuffle ← attr self "shuffle"
    typesize ← int_attr self "typesize"
    blocksize ← int_attr self "blocksize"
    done (
        metadata "blosc" (
          entry "cname" (json_of cname) (
            entry "clevel" clevel (
              entry "shuffle" (json_of shuffle)
                (entry "typesize" typesize (entry "blocksize" blocksize no_entries))))))

  abbrev pub config_int : Entries → String → Json → Outcome Json
  config_int config name default = do
    n ← to_int (plain (json_or (get_entry name config) default))
    done (int n)

  -- `Blosc.from_dict`
  unfoldable pub blosc_from_dict : Entries → Outcome (List Field)
  unfolding codec_config construct get_entry keywords_of
  blosc_from_dict data' = do
    config ← codec_config data' []
    clevel ← config_int config "clevel" (int (pos 5))
    typesize ← config_int config "typesize" (int (pos 4))
    blocksize ← config_int config "blocksize" (int (pos 0))
    construct blosc.cls.fields (
        keywords_of (
          entry "cname" (str (to_str (plain (json_or (get_entry "cname" config) (str "zstd"))))) (
            entry "clevel" clevel (
              entry "shuffle" (json_or (get_entry "shuffle" config) (str "shuffle"))
                (entry "typesize" typesize (entry "blocksize" blocksize no_entries))))))

  abbrev pub astype_entry : Value → Entries
  astype_entry (plain null) = no_entries
  astype_entry v = entry "astype" (str (to_str v)) no_entries

  -- `Delta.to_dict`
  unfoldable pub delta_to_dict : List Field → Outcome Entries
  delta_to_dict self = do
    dtype ← attr self "dtype"
    astype ← attr self "astype"
    done (metadata "delta" (entry "dtype" (str (to_str dtype)) (astype_entry astype)))

-- `LZ4.from_dict`
unfoldable pub lz4_from_dict : Entries → Outcome (List Field)
unfolding codec_config construct keywords_of
lz4_from_dict data' = do
  config ← codec_config data' []
  construct lz4.cls.fields (keywords_of config)

-- `BitRound.from_dict`
unfoldable pub bitround_from_dict : Entries → Outcome (List Field)
unfolding codec_config construct keywords_of
bitround_from_dict data' = do
  config ← codec_config data' []
  construct bitround_fields (keywords_of config)

-- ===== src/Codecs/Metadata/Names.antt =====
-- The enums of src/czarr/codecs/base.py and the classes of src/czarr/codecs/compressors: what each adds to
-- the fields of `CudaBytesBytesCodec`.
use czarr.Prelude.{
  true, false, List, [], ◌∷◌, ◌++◌, if◌then◌else◌, Outcome, done, raise, ◌>>=◌, attribute_error,
}
use czarr.Prelude.Int.{pos}
use czarr.Prelude.Text.{String, str_eq}
use czarr.Codecs.Json.{Json, bool, int, str}
use czarr.Codecs.Metadata.{Value, plain, Field, CodecClass, base_fields, Keywords}

-- _Algorithm
pub data Algorithm : Type 0 where
  lz4_algorithm snappy_algorithm zstd_algorithm deflate_algorithm : Algorithm
  gdeflate_algorithm bitcomp_algorithm ans_algorithm cascaded_algorithm : Algorithm

abbrev pub algorithm_value : Algorithm → String
algorithm_value lz4_algorithm = "LZ4"
algorithm_value snappy_algorithm = "Snappy"
algorithm_value zstd_algorithm = "Zstd"
algorithm_value deflate_algorithm = "Deflate"
algorithm_value gdeflate_algorithm = "GDeflate"
algorithm_value bitcomp_algorithm = "Bitcomp"
algorithm_value ans_algorithm = "ANS"
algorithm_value cascaded_algorithm = "Cascaded"

-- _BitstreamKind
pub data BitstreamKind : Type 0 where
  nvcomp_native raw_stream with_uncompressed_size : BitstreamKind

abbrev pub bitstream_value : BitstreamKind → String
bitstream_value nvcomp_native = "NVCOMP_NATIVE"
bitstream_value raw_stream = "RAW"
bitstream_value with_uncompressed_size = "WITH_UNCOMPRESSED_SIZE"

-- A subclass of `CudaBytesBytesCodec`: its class constants, its own fields behind those of the base, and
-- the fields that `_codec_kwargs` passes to nvCOMP.
pub record NvcompClass : Type 0 where
  pub cls : CodecClass
  pub algorithm : Algorithm
  pub bitstream_kind : BitstreamKind
  pub passed : List String

abbrev pub own_field : String → Json → Field
own_field name default = record { name = name; compared = true; value = plain default }

abbrev pub subclass : String → List Field → CodecClass
subclass name own = record { codec_name = name; fields = base_fields ++ own }

abbrev pub native_class : String → Algorithm → List Field → List String → NvcompClass
native_class name algorithm own passed = record {
  cls = subclass name own;
  algorithm = algorithm;
  bitstream_kind = nvcomp_native;
  passed = passed;
}

abbrev pub ans : NvcompClass
ans = native_class "czarr.ans" ans_algorithm [] []

abbrev pub bitcomp : NvcompClass
bitcomp =
    native_class "czarr.bitcomp" bitcomp_algorithm (own_field "algorithm_type" (int (pos 0)) ∷ [])
      ("algorithm_type" ∷ [])

abbrev pub cascaded : NvcompClass
cascaded =
    native_class "czarr.cascaded" cascaded_algorithm
      (own_field "num_rles" (int (pos 2))
        ∷ own_field "num_deltas" (int (pos 1))
        ∷ own_field "use_bitpack" (bool true)
        ∷ [])
      ("num_rles" ∷ "num_deltas" ∷ "use_bitpack" ∷ [])

abbrev pub snappy : NvcompClass
snappy = native_class "czarr.snappy" snappy_algorithm [] []

abbrev pub deflate : NvcompClass
deflate =
    native_class "czarr.deflate" deflate_algorithm (own_field "algorithm_type" (int (pos 1)) ∷ [])
      ("algorithm_type" ∷ [])

abbrev pub gdeflate : NvcompClass
gdeflate =
    native_class "czarr.gdeflate" gdeflate_algorithm (own_field "algorithm_type" (int (pos 1)) ∷ [])
      ("algorithm_type" ∷ [])

abbrev pub standard_class : String → Algorithm → BitstreamKind → List Field → NvcompClass
standard_class name algorithm bitstream_kind own = record {
  cls = subclass name own;
  algorithm = algorithm;
  bitstream_kind = bitstream_kind;
  passed = [];
}

abbrev pub lz4 : NvcompClass
lz4 =
    standard_class "lz4" lz4_algorithm with_uncompressed_size
      (own_field "acceleration" (int (pos 1)) ∷ [])

abbrev pub zstd : NvcompClass
zstd =
    standard_class "zstd" zstd_algorithm raw_stream
      (own_field "level" (int (pos 0)) ∷ own_field "checksum" (bool false) ∷ [])

abbrev pub gzip : NvcompClass
gzip = standard_class "gzip" deflate_algorithm raw_stream (own_field "level" (int (pos 5)) ∷ [])

abbrev pub zlib : NvcompClass
zlib = standard_class "zlib" deflate_algorithm raw_stream (own_field "level" (int (pos 5)) ∷ [])

abbrev pub blosc : NvcompClass
blosc = standard_class "blosc" zstd_algorithm raw_stream (
    own_field "cname" (str "zstd")
    ∷ own_field "clevel" (int (pos 5))
    ∷ own_field "shuffle" (str "shuffle")
    ∷ own_field "typesize" (int (pos 4))
    ∷ own_field "blocksize" (int (pos 0))
    ∷ [])

-- `getattr(self, name)`
abbrev pub attr : List Field → String → Outcome Value
attr [] name = raise attribute_error
attr (f ∷ fs) name = if str_eq f.name name then done f.value else attr fs name

-- `_codec_kwargs`
unfoldable pub codec_kwargs : List String → List Field → Outcome Keywords
codec_kwargs [] self = done []
codec_kwargs (name ∷ names) self = do
  v ← attr self name
  rest ← codec_kwargs names self
  done ((name, v) ∷ rest)

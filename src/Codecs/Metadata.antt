-- ===== src/Codecs/Metadata.antt =====
-- src/czarr/codecs/base.py: the classes of codecs as dataclasses, and their metadata. An instance is the
-- list of its fields; a class is its fields with their defaults.
use czarr.Prelude.{
  ◌≡◌, Bool, true, false, Option, none, some, List, [], ◌∷◌, ◌++◌, map, if◌then◌else◌, Outcome,
  done, raise, ◌>>=◌, type_error, value_error,
}
use czarr.Prelude.Int.{ℤ, pos}
use czarr.Prelude.Text.{String, str_eq}
use czarr.Codecs.Json.{
  Json, null, bool, int, str, object, Entries, no_entries, entry, get_entry, keep_entries, one_of,
  codec_config,
}
pub mod Names
pub mod RoundTrip
pub mod Schemas
pub mod Cycles

-- Checksum
pub data Checksum : Type 0 where
  no_compute_no_verify compute_and_no_verify no_compute_and_verify_if_present : Checksum
  compute_and_verify_if_present compute_and_verify : Checksum

abbrev pub checksum_value : Checksum → String
checksum_value no_compute_no_verify = "NO_COMPUTE_NO_VERIFY"
checksum_value compute_and_no_verify = "COMPUTE_AND_NO_VERIFY"
checksum_value no_compute_and_verify_if_present = "NO_COMPUTE_AND_VERIFY_IF_PRESENT"
checksum_value compute_and_verify_if_present = "COMPUTE_AND_VERIFY_IF_PRESENT"
checksum_value compute_and_verify = "COMPUTE_AND_VERIFY"

-- `Checksum(value)`: the member with the value.
abbrev pub checksum_member : List Checksum → String → Outcome Checksum
checksum_member [] value = raise value_error
checksum_member (c ∷ cs) value =
    if str_eq (checksum_value c) value then done c else checksum_member cs value

abbrev pub checksum_of : String → Outcome Checksum
checksum_of value =
    checksum_member
      (no_compute_no_verify ∷ compute_and_no_verify ∷ no_compute_and_verify_if_present
        ∷ compute_and_verify_if_present ∷ compute_and_verify ∷ [])
      value

-- What a field holds: a plain value, or a member of the enum. A stream object of the caller is outside
-- of the metadata: the methods below do not read the field that holds it.
pub data Value : Type 0 where
  plain : Json → Value
  policy : Checksum → Value

-- A field of a dataclass: `compared` is the flag `compare` of `dataclasses.field`.
pub record Field : Type 0 where
  pub name : String
  pub compared : Bool
  pub value : Value

-- The fields that `CudaBytesBytesCodec` declares.
abbrev pub base_fields : List Field
base_fields =
    record { name = "chunk_size"; compared = true; value = plain (int (pos 65536)) }
    ∷ record { name = "checksum_policy"; compared = true; value = policy no_compute_no_verify }
    ∷ record { name = "device_id"; compared = true; value = plain null }
    ∷ record { name = "cuda_stream"; compared = false; value = plain null }
    ∷ []

-- A subclass: `codec_name` and the fields with their defaults.
pub record CodecClass : Type 0 where
  pub codec_name : String
  pub fields : List Field

abbrev pub json_of : Value → Json
json_of (plain value) = value
json_of (policy c) = str (checksum_value c)

-- The loop of `to_dict` over `fields(self)`.
unfoldable pub config_of : List Field → Entries
config_of [] = no_entries
config_of (f ∷ fs) =
    let rest = config_of fs in if f.compared then entry f.name (json_of f.value) rest else rest

abbrev pub metadata : String → Entries → Entries
metadata name config = entry "name" (str name) (entry "configuration" (object config) no_entries)

-- `CudaBytesBytesCodec.to_dict`
unfoldable pub to_dict : CodecClass → List Field → Entries
unfolding config_of
to_dict cls self = metadata cls.codec_name (config_of self)

-- The keyword arguments of a constructor.
abbrev pub Keywords : Type 0
Keywords = List (String × Value)

unfoldable pub keywords_of : Entries → Keywords
keywords_of no_entries = []
keywords_of (entry key value rest) = (key, plain value) ∷ keywords_of rest

abbrev pub keyword : Keywords → String → Option Value
keyword [] name = none
keyword ((k, v) ∷ ks) name = if str_eq k name then some v else keyword ks name

abbrev pub given_or : Option Value → Value → Value
given_or none default = default
given_or (some v) default = v

abbrev pub with_value : Field → Value → Field
with_value f v = record { name = f.name; compared = f.compared; value = v }

-- Each field with its keyword argument, or its default.
unfoldable pub fill_fields : List Field → Keywords → List Field
fill_fields [] ks = []
fill_fields (f ∷ fs) ks = with_value f (given_or (keyword ks f.name) f.value) ∷ fill_fields fs ks

-- Whether each keyword names a field.
unfoldable pub known_keywords : List String → Keywords → Bool
known_keywords names [] = true
known_keywords names ((k, v) ∷ ks) = if one_of k names then known_keywords names ks else false

abbrev pub names_of : List Field → List String
names_of fs = map (λ f. f.name) fs

-- `cls(**keywords)` of a dataclass
unfoldable pub construct : List Field → Keywords → Outcome (List Field)
unfolding known_keywords fill_fields
construct fields keywords =
    if known_keywords (names_of fields) keywords
    then done (fill_fields fields keywords)
    else raise type_error

-- `if "checksum_policy" in filtered and isinstance(filtered["checksum_policy"], str)`
abbrev pub policy_value : Json → Outcome Value
policy_value (str s) = do c ← checksum_of s; done (policy c)
policy_value value = done (plain value)

unfoldable pub with_policy : Entries → Outcome Keywords
with_policy no_entries = done []
with_policy (entry key value rest) = do
  v ← (if str_eq key "checksum_policy" then policy_value value else done (plain value))
  ks ← with_policy rest
  done ((key, v) ∷ ks)

-- `CudaBytesBytesCodec.from_dict`
unfoldable pub from_dict : CodecClass → Entries → Outcome (List Field)
unfolding construct with_policy codec_config keep_entries
from_dict cls data' = do
  raw ← codec_config data' []
  keywords ← with_policy (keep_entries (λ k. one_of k (names_of cls.fields)) raw)
  construct cls.fields keywords

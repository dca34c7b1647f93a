-- ===== src/Plan.antt =====
-- src/czarr/lowlevel/plan.py: `ShardSpec`, `DecodePlan` with its geometry and `selected_units`, and
-- the `_chunk_box` of src/czarr/core/array.py. `Plan.Ranges` has the read planning.
pub mod Box
pub mod Described
pub mod Keys
pub mod Metadata
pub mod Ranges
pub mod Ranks
pub mod ShardIndex
pub mod Units
use czarr.Prelude.{
  ℕ, zero, suc, ◌+◌, ◌-◌, ◌*◌, ◌/◌, ◌%◌, min, Bool, true, false, ◌&&◌, ◌||◌, Option, none, some,
  List, [], ◌∷◌, ◌++◌, map, length, ltb, ◌==◌, if◌then◌else◌, Outcome, done, raise, ◌>>=◌,
  zip_strict, value_error, index_error, zero_division,
}
use czarr.Prelude.Text.{String, str_eq}
use czarr.Prelude.Division.{ceil}
use czarr.Prelude.Int.{ℤ, pos}
use czarr.Selection.{Item, Selection, tuple, slice, Bound, normalize_selection}

-- The entries of a v3 codec dict that the code reads: `name`, and `endian` and `elementsize` of its
-- configuration.
pub record Codec : Type 0 where
  pub name : Option String
  pub endian : Option String
  pub elementsize : Option ℕ

pub record ShardSpec : Type 0 where
  pub inner_chunk_shape : List ℕ
  pub codecs : List Codec
  pub index_location : String
  pub index_codecs : List Codec

-- `c.get("name") == name`
abbrev pub has_name : String → Codec → Bool
has_name name c = elim c.name [ none ↦ false | some n ↦ str_eq n name ]

-- `ShardSpec.index_has_checksum`
unfoldable pub index_has_checksum : List Codec → Bool
index_has_checksum [] = false
index_has_checksum (c ∷ cs) = has_name "crc32c" c || index_has_checksum cs

-- The fields of the plan that planning and decoding read; `itemsize` is that of its dtype.
pub record DecodePlan : Type 0 where
  pub shape : List ℕ
  pub itemsize : ℕ
  pub chunk_shape : List ℕ
  pub codecs : List Codec
  pub shard : Option ShardSpec
  pub key_separator : String
  pub key_prefix_c : Bool

abbrev pub ndim : DecodePlan → ℕ
ndim plan = length plan.shape

-- The inner chunks of a sharded array, or its chunks.
abbrev pub decode_shape : List ℕ → Option ShardSpec → List ℕ
decode_shape chunk_shape none = chunk_shape
decode_shape chunk_shape (some s) = s.inner_chunk_shape

unfoldable pub decode_chunk_shape : DecodePlan → List ℕ
decode_chunk_shape plan = decode_shape plan.chunk_shape plan.shard

-- `_ceil_div`
abbrev pub ceil_div : ℕ → ℕ → Outcome ℕ
ceil_div a b = if b == 0 then raise zero_division else done (ceil a b)

-- `a // b`, `a % b`
abbrev pub floor_div : ℕ → ℕ → Outcome ℕ
floor_div a b = if b == 0 then raise zero_division else done (a / b)

abbrev pub modulo : ℕ → ℕ → Outcome ℕ
modulo a b = if b == 0 then raise zero_division else done (a % b)

unfoldable pub grid_shape : DecodePlan → Outcome (List ℕ)
unfolding decode_chunk_shape zip_strict
grid_shape plan = zip_strict ceil_div plan.shape (decode_chunk_shape plan)

abbrev pub units_per : List ℕ → Option ShardSpec → Outcome (List ℕ)
units_per chunk_shape none = raise value_error
units_per chunk_shape (some s) = zip_strict floor_div chunk_shape s.inner_chunk_shape

unfoldable pub units_per_shard : DecodePlan → Outcome (List ℕ)
unfolding zip_strict
units_per_shard plan = units_per plan.chunk_shape plan.shard

-- The n numbers from a on.
abbrev pub range_from : ℕ → ℕ → List ℕ
range_from a zero = []
range_from a (suc n) = a ∷ range_from (suc a) n

-- `range(start // c, _ceil_div(stop, c)) if stop > start else range(0)`
unfoldable pub axis_units : Bound → ℕ → Outcome (List ℕ)
axis_units (start, stop) c =
    if ltb start stop
    then (if c == 0
        then raise zero_division
        else done (range_from (start / c) (ceil stop c - start / c)))
    else done []

-- Every element of `t` behind each of the numbers.
prefix_each : List ℕ → List (List ℕ) → List (List ℕ)
prefix_each [] t = []
prefix_each (x ∷ xs) t = map (λ c. x ∷ c) t ++ prefix_each xs t

-- `itertools.product`
unfoldable pub product : List (List ℕ) → List (List ℕ)
unfolding prefix_each
product [] = [] ∷ []
product (r ∷ rs) = prefix_each r (product rs)

-- `selected_units` behind `normalize_selection`
unfoldable pub units_of_bounds : List Bound → List ℕ → Outcome (List (List ℕ))
unfolding axis_units product zip_strict
units_of_bounds bounds cs = do per_axis ← zip_strict axis_units bounds cs; done (product per_axis)

unfoldable pub selected_units : DecodePlan → Selection → Outcome (List (List ℕ))
unfolding units_of_bounds decode_chunk_shape
selected_units plan selection = do
  bounds ← normalize_selection selection plan.shape
  units_of_bounds bounds (decode_chunk_shape plan)

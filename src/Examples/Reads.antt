-- ===== src/Examples/Reads.antt =====
-- Reads of a small sharded array: four elements in one shard of two units, of which one is missing.
use mathlib.Core.List.{map, Perm}
use czarr.Prelude.{
  ℕ, ◌*◌, ◌≡◌, refl, inl, inr, true, none, some, List, [], ◌∷◌, ◌++◌, arith, length, replicate,
  ◌==◌, ==_iff, if◌then◌else◌, Bool-cases, Outcome, done, raise, prod, value_error, os_error,
}
use czarr.Prelude.Text.{str_eq}
use czarr.Prelude.Gather.{gather}
use czarr.Prelude.Int.{pos}
use czarr.Selection.{tuple, normalize_selection}
use czarr.Coalesce.{coalesce_ranges, coalesce}
use czarr.Prelude.Division.{ceil}
use czarr.Plan.{DecodePlan, ShardSpec, units_per_shard, selected_units, index_has_checksum}
use czarr.Plan.Keys.{chunk_key}
use czarr.Plan.ShardIndex.{Bytes, Files, NdIndex, Indexes, entry_at, row_major}
use czarr.Plan.Ranges.{ReadRequest, add_to_shard, insert_group, ranges}
use czarr.Plan.Ranges.Windows.{all_members}
use czarr.Plan.Ranges.Cache.{IsValid, Long}
use czarr.Io.{read}
use czarr.Io.Exact.{read-eq}
use czarr.Plan.Ranges.Lookup.{located, ranges-perm}

-- An index is its bytes and its shape.
abbrev parse_bytes : Bytes → List ℕ → Outcome (Bytes × List ℕ)
parse_bytes raw shape =
    if length raw == prod shape * 16 then done (raw, shape) else raise value_error

abbrev entry_bytes : Bytes × List ℕ → List ℕ → Outcome (ℕ × ℕ)
entry_bytes (raw, shape) within = done (entry_at raw (row_major within shape))

abbrev pub byte_index : NdIndex
byte_index = record {
  Index = Bytes × List ℕ;
  parse = parse_bytes;
  entry = entry_bytes;
  parse_full = λ raw shape h. ((raw, shape), ground arith, λ within inside. refl);
  parse_other = λ raw shape h. elim (Bool-cases (length raw == prod shape * 16)) [
    | inl e ↦ absurd (h ((==_iff (length raw) (prod shape * 16)).0 e))
    | inr e ↦ rw e
  ];
}

abbrev pub spec : ShardSpec
spec = record { inner_chunk_shape = 2 ∷ []; codecs = []; index_location = "end"; index_codecs = [] }

abbrev pub plan : DecodePlan
plan = record {
  shape = 4 ∷ [];
  itemsize = 1;
  chunk_shape = 4 ∷ [];
  codecs = [];
  shard = some spec;
  key_separator = "/";
  key_prefix_c = true;
}

-- Three bytes, and the index: the first unit is at offset 1 with 2 bytes, the second is missing.
abbrev shard_file : Bytes
shard_file = (7 ∷ 8 ∷ 9 ∷ []) ++ ((1 ∷ replicate 7 0) ++ ((2 ∷ replicate 7 0) ++ replicate 16 255))

abbrev pub files : Files
files path = if str_eq path "c/0" then some shard_file else none

chunk_key_test : chunk_key plan (10 ∷ 207 ∷ []) ≡ "c/10/207"
unfolding chunk_key
chunk_key_test = refl

abbrev request : ReadRequest
request = record { path = "c/0"; offset = 1; nbytes = 2; members = (0 ∷ [], 0, 2) ∷ [] }

ranges_test :
    (ranges byte_index plan files none (pos 64) (pos 0) (tuple []) []).0 ≡ done (request ∷ [])
unfolding ranges index_has_checksum selected_units normalize_selection ceil units_per_shard
    add_to_shard insert_group chunk_key coalesce_ranges coalesce
ranges_test = refl

located_test :
    gather (located plan spec files (2 ∷ [])) ((0 ∷ []) ∷ (1 ∷ []) ∷ [])
    ≡ (0 ∷ [], "c/0", 1, 2) ∷ []
unfolding index_has_checksum chunk_key
located_test = refl

pub files-Long : Long byte_index plan spec files (2 ∷ []) (omega arith, tt)
unfolding index_has_checksum
files-Long path content h = elim (Bool-cases (str_eq path "c/0")) [
  | inl e ↦
      let there : some shard_file ≡ some content = simp e at h in
      let same : shard_file ≡ content = cc in rw (← same) (omega arith)
  | inr e ↦ let gone : none ≡ some content = simp e at h in absurd (ground arith)
]

ranges-perm_example :
    (out : List ReadRequest) × (indexes : Indexes byte_index) × (ranges byte_index plan files none
        (pos 64)
        (pos 0)
        (tuple [])
        []
      ≡ (done out, indexes))
    × IsValid byte_index plan spec files (2 ∷ []) (omega arith, tt) indexes
    × Perm (all_members out) (gather (located plan spec files (2 ∷ [])) ((0 ∷ []) ∷ (1 ∷ []) ∷ []))
unfolding units_per_shard selected_units ceil normalize_selection
ranges-perm_example =
    ranges-perm byte_index plan spec files (2 ∷ []) (omega arith, tt) 63 0 (tuple []) []
      ((0 ∷ []) ∷ (1 ∷ []) ∷ []) refl refl refl tt files-Long

read_test : read files (request ∷ []) ≡ done ((8 ∷ 9 ∷ []) ∷ [])
unfolding read
read_test = refl

-- Its file has the bytes of the first request, and not all those of the second.
abbrev pairs : List (ReadRequest × Bytes)
pairs =
    (request, shard_file)
    ∷ (record { path = "c/0"; offset = 30; nbytes = 9; members = [] }, shard_file)
    ∷ []

read-eq_example : read files (map (λ p. p.0) pairs) ≡ raise os_error
read-eq_example = read-eq files pairs (refl, (refl, tt))

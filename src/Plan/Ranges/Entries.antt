-- ===== src/Plan/Ranges/Entries.antt =====
-- Where the index of a shard has a unit, and that `_shard_index` returns that index.
use czarr.Prelude.{
  ℕ, ◌-◌, ◌*◌, ◌/◌, ◌%◌, ◌<◌, ◌≡◌, refl, inl, inr, false, List, [], ◌∷◌, arith, length, slice, ◌==◌,
  if◌then◌else◌, Bool-cases, Every, done, zip_strict, prod,
}
use czarr.Prelude.Text.{String, str_eq}
use czarr.Prelude.Gather.{gather}
use czarr.Plan.{ShardSpec, floor_div, modulo}
use czarr.Plan.ShardIndex.{Bytes, missing, index_nbytes, row_major, entry_at, Within, NdIndex}
use czarr.Plan.Ranges.{Present, present_units}
use czarr.Plan.Ranges.Windows.{Located, in_file}

-- The shard that a unit lies in, and its place there.
abbrev pub shard_of : List ℕ → List ℕ → List ℕ
shard_of (u ∷ us) (p ∷ ps) = u / p ∷ shard_of us ps
shard_of _ _ = []

abbrev pub within_of : List ℕ → List ℕ → List ℕ
within_of (u ∷ us) (p ∷ ps) = u % p ∷ within_of us ps
within_of _ _ = []

-- The entries of the index in a shard file.
abbrev pub index_start : ShardSpec → List ℕ → ℕ → ℕ
index_start spec per_shard size =
    if str_eq spec.index_location "end" then size - index_nbytes spec per_shard else 0

abbrev pub index_bytes : ShardSpec → List ℕ → Bytes → Bytes
index_bytes spec per_shard content =
    slice content (index_start spec per_shard (length content)) (prod per_shard * 16)

-- A unit at an entry, unless that says missing.
abbrev pub at_entry : String → List ℕ → ℕ × ℕ → List Located
at_entry path coords entry =
    if entry.0 == missing
    then []
    else in_file path (coords, record { offset = entry.0; length = entry.1 })

abbrev pub entry_of : Bytes → List ℕ → List ℕ → ℕ × ℕ
entry_of raw per_shard coords = entry_at raw (row_major (within_of coords per_shard) per_shard)

pub zip-shard_of :
    (us ps : List ℕ)
    → length us ≡ length ps
    → Every (λ p. 0 < p) ps
    → zip_strict floor_div us ps ≡ done (shard_of us ps)
unfolding zip_strict
zip-shard_of [] [] e h = refl
zip-shard_of [] (p ∷ ps) e h = absurd (omega arith)
zip-shard_of (u ∷ us) [] e h = absurd (omega arith)
zip-shard_of (u ∷ us) (p ∷ ps) e h =
    let nonzero : (p == 0) ≡ false = (let k = h.0 in ground arith) in
    rw (nonzero, zip-shard_of us ps (omega arith) h.1)

zip-within_of :
    (us ps : List ℕ)
    → length us ≡ length ps
    → Every (λ p. 0 < p) ps
    → zip_strict modulo us ps ≡ done (within_of us ps)
unfolding zip_strict
zip-within_of [] [] e h = refl
zip-within_of [] (p ∷ ps) e h = absurd (omega arith)
zip-within_of (u ∷ us) [] e h = absurd (omega arith)
zip-within_of (u ∷ us) (p ∷ ps) e h =
    let nonzero : (p == 0) ≡ false = (let k = h.0 in ground arith) in
    rw (nonzero, zip-within_of us ps (omega arith) h.1)

within_of-Within :
    (us ps : List ℕ) → length us ≡ length ps → Every (λ p. 0 < p) ps → Within (within_of us ps) ps
within_of-Within [] [] e h = tt
within_of-Within [] (p ∷ ps) e h = absurd (omega arith)
within_of-Within (u ∷ us) [] e h = absurd (omega arith)
within_of-Within (u ∷ us) (p ∷ ps) e h =
    let k = h.0 in (grind arith, within_of-Within us ps (omega arith) h.1)

module _ (np : NdIndex) (per_shard : List ℕ) (positive : Every (λ p. 0 < p) per_shard) where
  -- The index gives the entries of these bytes.
  abbrev pub IsIndexOf : np.Index → Bytes → Type 0
  IsIndexOf index raw =
      (within : List ℕ)
      → Within within per_shard
      → np.entry index within ≡ done (entry_at raw (row_major within per_shard))

  pub present_units-eq :
      (path : String) (index : np.Index) (raw : Bytes) (units : List (List ℕ))
      → IsIndexOf index raw
      → Every (λ c. length c ≡ length per_shard) units
      → (present : Present) × (present_units np index per_shard units ≡ done present)
        × (gather (in_file path) present
            ≡ gather (λ c. at_entry path c (entry_of raw per_shard c)) units)
  unfolding present_units
  present_units-eq path index raw [] h k = ([], refl, refl)
  present_units-eq path index raw (c ∷ cs) h k =
      let (present, e, e') = present_units-eq path index raw cs h k.1 in
      let zipped = zip-within_of c per_shard k.0 positive in
      let found = h (within_of c per_shard) (within_of-Within c per_shard k.0 positive) in
      elim (Bool-cases ((entry_of raw per_shard c).0 == missing)) [
        | inl gone ↦ (present, rw (zipped, found, e, gone), rw gone e')
        | inr there ↦ (
          (
            c,
            record { offset = (entry_of raw per_shard c).0; length = (entry_of raw per_shard c).1 },
          )
              ∷ present,
          rw (zipped, found, e, there),
          rw (there, e'),
        )
      ]

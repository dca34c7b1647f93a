-- ===== src/Plan/Ranges.antt =====
-- src/czarr/lowlevel/plan.py: `ranges`, from a selection to the reads of the store. A file is its
-- bytes under its key; the plan's cache of shard indexes is passed through each step.
pub mod Entries
pub mod Cache
pub mod Grouping
pub mod Lookup
pub mod Windows
use czarr.Prelude.{
  ℕ, Option, none, some, List, [], ◌∷◌, ◌++◌, map, get_elem?, length, ◌==◌, if◌then◌else◌, Outcome,
  done, raise, ◌>>=◌, zip_strict, index_error,
}
use czarr.Prelude.Text.{String}
use czarr.Prelude.Int.{ℤ}
use czarr.Coalesce.{ByteRange, Member, FusedRead, coalesce_ranges}
use czarr.Selection.{Selection}
use czarr.Plan.{ShardSpec, DecodePlan, units_per_shard, selected_units, floor_div, modulo}
use czarr.Plan.Keys.{chunk_key, tuple_eq, tuple_ltb}
use czarr.Plan.ShardIndex.{Files, Fetch, missing, read_host, NdIndex, Indexes, shard_index}

pub record ReadRequest : Type 0 where
  pub path : String
  pub offset : ℕ
  pub nbytes : ℕ
  pub members : List (List ℕ × ℕ × ℕ)

-- `_plain_ranges`
unfoldable pub plain_ranges : DecodePlan → Files → List (List ℕ) → List ReadRequest
plain_ranges plan files [] = []
plain_ranges plan files (coords ∷ units) =
    let path = chunk_key plan coords in
    let out = plain_ranges plan files units in
    elim (files path) [
      | none ↦ out
      | some content ↦
          let nbytes = length content in
          record { path = path; offset = 0; nbytes = nbytes; members = (coords, 0, nbytes) ∷ [] }
          ∷ out
    ]

abbrev pub Groups : Type 0
Groups = List (List ℕ × List (List ℕ))

-- `by_shard.setdefault(shard_coords, []).append(coords)`
unfoldable pub add_to_shard : List ℕ → List ℕ → Groups → Groups
add_to_shard shard coords [] = (shard, coords ∷ []) ∷ []
add_to_shard shard coords ((s, units) ∷ groups) =
    if tuple_eq s shard
    then (s, units ++ coords ∷ []) ∷ groups
    else (s, units) ∷ add_to_shard shard coords groups

-- The loop that groups the units.
unfoldable pub by_shard : List ℕ → Groups → List (List ℕ) → Outcome Groups
by_shard per_shard groups [] = done groups
by_shard per_shard groups (coords ∷ units) = do
  shard ← zip_strict floor_div coords per_shard
  by_shard per_shard (add_to_shard shard coords groups) units

unfoldable pub insert_group : List ℕ × List (List ℕ) → Groups → Groups
insert_group g [] = g ∷ []
insert_group g (h ∷ groups) =
    if tuple_ltb h.0 g.0 then h ∷ insert_group g groups else g ∷ h ∷ groups

-- `sorted(by_shard.items())`: the keys differ, so that they alone decide.
unfoldable pub sort_groups : Groups → Groups
sort_groups [] = []
sort_groups (g ∷ groups) = insert_group g (sort_groups groups)

-- A unit with the byte range of its entry.
abbrev pub Present : Type 0
Present = List (List ℕ × ByteRange)

-- `[ByteRange(offset=o, length=n) for _, o, n in present]`
abbrev pub byte_ranges : Present → List ByteRange
byte_ranges present = map (λ p. p.1) present

-- `(present[i][0], intra, ln)` in front of the members behind it.
name_first :
    Option (List ℕ × ByteRange)
    → ℕ
    → ℕ
    → Outcome (List (List ℕ × ℕ × ℕ))
    → Outcome (List (List ℕ × ℕ × ℕ))
name_first none intra len rest = raise index_error
name_first (some p) intra len rest = do members ← rest; done ((p.0, intra, len) ∷ members)

-- `tuple((present[i][0], intra, ln) for i, intra, ln in window.members)`
unfoldable pub name_members : Present → List Member → Outcome (List (List ℕ × ℕ × ℕ))
unfolding name_first
name_members present [] = done []
name_members present ((i, intra, len) ∷ ms) =
    name_first (get_elem? present i) intra len (name_members present ms)

-- The requests of one shard: windows without bytes are left out.
unfoldable pub window_requests : String → Present → List FusedRead → Outcome (List ReadRequest)
unfolding name_members
window_requests path present [] = done []
window_requests path present (w ∷ ws) =
    if w.length == 0 then window_requests path present ws else do
      members ← name_members present w.members
      rest ← window_requests path present ws
      done (record { path = path; offset = w.offset; nbytes = w.length; members = members } ∷ rest)

-- The reads for the units that are present.
unfoldable pub fuse_present : String → ℤ → ℤ → Present → Outcome (List ReadRequest)
unfolding window_requests
fuse_present path max_fused max_gap [] = done []
fuse_present path max_fused max_gap (p ∷ ps) = do
  fused ← coalesce_ranges (byte_ranges (p ∷ ps)) max_fused max_gap
  window_requests path (p ∷ ps) fused

module _ (np : NdIndex) where
  -- The units of a shard that its index does not call missing.
  unfoldable pub present_units : np.Index → List ℕ → List (List ℕ) → Outcome Present
  present_units index per_shard [] = done []
  present_units index per_shard (coords ∷ units) = do
    within ← zip_strict modulo coords per_shard
    entry ← np.entry index within
    rest ← present_units index per_shard units
    done (
        if entry.0 == missing
        then rest
        else (coords, record { offset = entry.0; length = entry.1 }) ∷ rest)

  -- The reads of one shard, behind its index.
  unfoldable pub shard_requests :
      List ℕ → ℤ → ℤ → String → List (List ℕ) → np.Index → Outcome (List ReadRequest)
  unfolding present_units fuse_present
  shard_requests per_shard max_fused max_gap path units index = do
    present ← present_units index per_shard units
    fuse_present path max_fused max_gap present

  -- One step and then the next, on the cache that it leaves. What a step raises ends the call.
  abbrev pub and_then {ℓ κ} :
      {A : Type ℓ} {B : Type κ}
      → Outcome A × Indexes np
      → (A → Indexes np → Outcome B × Indexes np)
      → Outcome B × Indexes np
  and_then (raise e, indexes) next = (raise e, indexes)
  and_then (done a, indexes) next = next a indexes

  -- The requests of a shard whose index was looked for: none where the file is missing.
  abbrev pub found_requests :
      List ℕ → ℤ → ℤ → String → List (List ℕ) → Option np.Index → Outcome (List ReadRequest)
  found_requests per_shard max_fused max_gap path units none = done []
  found_requests per_shard max_fused max_gap path units (some index) =
      shard_requests per_shard max_fused max_gap path units index

  module _ (plan : DecodePlan) (files : Files) (fetch : Fetch) (max_fused max_gap : ℤ) where
    -- The loop over the shards.
    unfoldable pub sharded_loop :
        ShardSpec → List ℕ → Indexes np → Groups → Outcome (List ReadRequest) × Indexes np
    unfolding shard_index shard_requests
    sharded_loop spec per_shard indexes [] = (done [], indexes)
    sharded_loop spec per_shard indexes ((shard, units) ∷ groups) =
        let path = chunk_key plan shard in
        and_then (shard_index np spec files fetch per_shard indexes shard path) (λ found indexes₁.
          and_then (found_requests per_shard max_fused max_gap path units found, indexes₁)
            (λ out indexes₂.
              and_then (sharded_loop spec per_shard indexes₂ groups)
                (λ outs indexes₃. (done (out ++ outs), indexes₃))))

    -- `_sharded_ranges`
    unfoldable pub sharded_ranges :
        ShardSpec → Indexes np → List (List ℕ) → Outcome (List ReadRequest) × Indexes np
    unfolding sharded_loop by_shard sort_groups
    sharded_ranges spec indexes units =
        and_then (units_per_shard plan, indexes)
          (λ per_shard indexes₁.
            and_then (by_shard per_shard [] units, indexes₁)
              (λ groups indexes₂. sharded_loop spec per_shard indexes₂ (sort_groups groups)))

    -- `if self.shard is None`
    unfoldable pub ranges_of :
        Option ShardSpec → Indexes np → List (List ℕ) → Outcome (List ReadRequest) × Indexes np
    unfolding plain_ranges sharded_ranges
    ranges_of none indexes units = (done (plain_ranges plan files units), indexes)
    ranges_of (some spec) indexes units = sharded_ranges spec indexes units

    -- `ranges` with a fetch, behind `selected_units`
    unfoldable pub unit_ranges :
        Indexes np → List (List ℕ) → Outcome (List ReadRequest) × Indexes np
    unfolding ranges_of
    unit_ranges indexes [] = (done [], indexes)
    unit_ranges indexes (coords ∷ units) = ranges_of plan.shard indexes (coords ∷ units)

  -- `ranges(selection, max_fused_bytes=, max_gap_bytes=, fetch=)`
  unfoldable pub ranges :
      DecodePlan
      → Files
      → Option Fetch
      → ℤ
      → ℤ
      → Selection
      → Indexes np
      → Outcome (List ReadRequest) × Indexes np
  unfolding unit_ranges
  ranges plan files fetch max_fused max_gap selection indexes =
      let read : Fetch = elim fetch [ none ↦ read_host files | some f ↦ f ] in
      and_then (selected_units plan selection, indexes)
        (λ units indexes₁. unit_ranges plan files read max_fused max_gap indexes₁ units)

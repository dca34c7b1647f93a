-- ===== src/Plan/Ranges/Lookup.antt =====
-- `ranges` against its specification: the lookup of each selected unit in the index of its shard.
use mathlib.Core.List.{Perm}
use mathlib.Core.List.Perm
use czarr.Prelude.{
  ℕ, suc, ◌<◌, ◌≡◌, refl, sym, ap, ◌∙◌, Option, none, some, List, [], ◌∷◌, ◌++◌, length, Every,
  Every-mono, done,
}
use czarr.Prelude.Text.{String}
use czarr.Prelude.Gather.{gather, gather-append, gather-eq, gather-nil}
use czarr.Prelude.Int.{pos}
use czarr.Selection.{Selection}
use czarr.Plan.{ShardSpec, DecodePlan, units_per_shard, selected_units}
use czarr.Plan.Keys.{chunk_key}
use czarr.Plan.Ranks.{selected_units-length, units_per_shard-length}
use czarr.Plan.ShardIndex.{Bytes, Files, read_host, NdIndex, Indexes}
use czarr.Plan.Ranges.{
  ReadRequest, Groups, sort_groups, found_requests, shard_requests, sharded_loop, sharded_ranges,
  ranges_of, unit_ranges, ranges,
}
use czarr.Plan.Ranges.Windows.{Located, all_members, fuse_present-perm}
use czarr.Plan.Ranges.Entries.{shard_of, index_bytes, at_entry, entry_of, present_units-eq}
use czarr.Plan.Ranges.Cache.{IsValid, Long, IsFound, shard_index-IsFound}
use czarr.Plan.Ranges.Grouping.{
  grouped, IsGroup, sort_groups-perm, sort_groups-IsGroup, by_shard-IsGroup,
}

module _ (plan : DecodePlan) (spec : ShardSpec) (files : Files) (per_shard : List ℕ) where
  -- A unit in the bytes of its shard's file, if there is one.
  abbrev pub in_content : String → List ℕ → Option Bytes → List Located
  in_content path coords none = []
  in_content path coords (some content) =
      at_entry path coords (entry_of (index_bytes spec per_shard content) per_shard coords)

  -- Where the store has the bytes of a unit, by its own entry in the index of its own shard:
  -- nowhere, or in one place.
  abbrev pub located : List ℕ → List Located
  located coords =
      let path = chunk_key plan (shard_of coords per_shard) in in_content path coords (files path)

  located-at :
      (path : String) (content? : Option Bytes) (coords shard : List ℕ)
      → chunk_key plan shard ≡ path
      → files path ≡ content?
      → shard_of coords per_shard ≡ shard
      → in_content path coords content? ≡ located coords
  located-at path content? coords shard p f s = rw (s, p, f)

module _ (np : NdIndex) (plan : DecodePlan) (spec : ShardSpec) (files : Files) (per_shard : List ℕ)
    (positive : Every (λ p. 0 < p) per_shard) (max_fused max_gap : ℕ) where
  found_requests-perm :
      (shard : List ℕ) (units : List (List ℕ)) (found : Option np.Index)
      → IsFound np plan spec files per_shard positive shard found
      → IsGroup per_shard positive (shard, units)
      → (out : List ReadRequest) × (found_requests np per_shard
            (pos (suc max_fused))
            (pos max_gap)
            (chunk_key plan shard)
            units
            found
          ≡ done out)
        × Perm (all_members out) (gather (located plan spec files per_shard) units)
  unfolding shard_requests
  found_requests-perm shard units none gone group =
      let nowhere =
        gather-eq (λ c. []) (located plan spec files per_shard) units
          (Every-mono (λ c h. located-at plan spec files per_shard _ none c shard refl gone h.0)
            units group) in
      ([], refl, rw (← nowhere, gather-nil units) Perm.rfl)
  found_requests-perm shard units (some index) (content, there, entries) group =
      let path = chunk_key plan shard in
      let raw = index_bytes spec per_shard content in
      let (present, e, e') =
        present_units-eq np per_shard positive path index raw units entries
          (Every-mono (λ c h. h.1) units group) in
      let (out, f, f') = fuse_present-perm path max_fused max_gap present in
      let same =
        gather-eq (λ c. at_entry path c (entry_of raw per_shard c))
          (located plan spec files per_shard) units
          (Every-mono
            (λ c h. located-at plan spec files per_shard path (some content) c shard refl there h.0)
            units group) in
      (out, rw (e, f), rw (← same, ← e') f')

  sharded_loop-perm :
      (indexes : Indexes np) (groups : Groups)
      → IsValid np plan spec files per_shard positive indexes
      → Long np plan spec files per_shard positive
      → Every (IsGroup per_shard positive) groups
      → (out : List ReadRequest) × (indexes' : Indexes np) × (sharded_loop np plan files
            (read_host files)
            (pos (suc max_fused))
            (pos max_gap)
            spec
            per_shard
            indexes
            groups
          ≡ (done out, indexes'))
        × IsValid np plan spec files per_shard positive indexes'
        × Perm (all_members out) (gather (grouped (located plan spec files per_shard)) groups)
  unfolding sharded_loop
  sharded_loop-perm indexes [] valid long good = ([], indexes, refl, valid, Perm.rfl)
  sharded_loop-perm indexes ((shard, units) ∷ groups) valid long good =
      let (found, indexes₁, e₁, valid₁, is_found) =
        shard_index-IsFound np plan spec files per_shard positive indexes shard valid long in
      let (out, e₂, perm) = found_requests-perm shard units found is_found good.0 in
      let (outs, indexes₂, e₃, valid₂, perms) =
        sharded_loop-perm indexes₁ groups valid₁ long good.1 in
      (out ++ outs, indexes₂, rw (e₁, e₂, e₃), valid₂, rw gather-append (Perm.append perm perms))

  sharded_ranges-perm :
      (indexes : Indexes np) (units : List (List ℕ))
      → units_per_shard plan ≡ done per_shard
      → IsValid np plan spec files per_shard positive indexes
      → Long np plan spec files per_shard positive
      → Every (λ c. length c ≡ length per_shard) units
      → (out : List ReadRequest) × (indexes' : Indexes np) × (sharded_ranges np plan files
            (read_host files)
            (pos (suc max_fused))
            (pos max_gap)
            spec
            indexes
            units
          ≡ (done out, indexes'))
        × IsValid np plan spec files per_shard positive indexes'
        × Perm (all_members out) (gather (located plan spec files per_shard) units)
  unfolding sharded_ranges
  sharded_ranges-perm indexes units h valid long lengths =
      let find = located plan spec files per_shard in
      let (groups, e, good, perm) = by_shard-IsGroup per_shard positive find [] units tt lengths in
      let (out, indexes', e', valid', perm') =
        sharded_loop-perm indexes (sort_groups groups) valid long
          (sort_groups-IsGroup per_shard positive groups good) in
      (
        out,
        indexes',
        rw (h, e, e'),
        valid',
        Perm.trans perm' (Perm.trans (sort_groups-perm find groups) perm),
      )

  unit_ranges-perm :
      (indexes : Indexes np) (units : List (List ℕ))
      → plan.shard ≡ some spec
      → units_per_shard plan ≡ done per_shard
      → Every (λ c. length c ≡ length per_shard) units
      → IsValid np plan spec files per_shard positive indexes
      → Long np plan spec files per_shard positive
      → (out : List ReadRequest) × (indexes' : Indexes np) × (unit_ranges np plan files
            (read_host files)
            (pos (suc max_fused))
            (pos max_gap)
            indexes
            units
          ≡ (done out, indexes'))
        × IsValid np plan spec files per_shard positive indexes'
        × Perm (all_members out) (gather (located plan spec files per_shard) units)
  unfolding unit_ranges ranges_of
  unit_ranges-perm indexes [] s p lengths valid long = ([], indexes, refl, valid, Perm.rfl)
  unit_ranges-perm indexes (c ∷ cs) s p lengths valid long =
      let (out, indexes', e', valid', perm) =
        sharded_ranges-perm indexes (c ∷ cs) p valid long lengths in
      let chosen =
        ap
          (λ spec?.
            ranges_of np plan files (read_host files) (pos (suc max_fused)) (pos max_gap) spec?
              indexes (c ∷ cs))
          s in
      (out, indexes', chosen ∙ e', valid', perm)

  -- For a sharded array whose shards have `per_shard` units on each axis, none of them 0, with the
  -- default fetch and positive caps, where every file is long enough for an index and the cached
  -- indexes are those of the files: `ranges` returns. The members of its requests, each as a place
  -- in a file, are up to order the places that the lookup of each selected unit gives; a unit of a
  -- missing file, a missing entry or an entry without bytes has none. The cache that `ranges`
  -- leaves holds indexes of the files again.
  pub ranges-perm :
      (selection : Selection) (indexes : Indexes np) (units : List (List ℕ))
      → plan.shard ≡ some spec
      → units_per_shard plan ≡ done per_shard
      → selected_units plan selection ≡ done units
      → IsValid np plan spec files per_shard positive indexes
      → Long np plan spec files per_shard positive
      → (out : List ReadRequest) × (indexes' : Indexes np) × (ranges np plan files none
            (pos (suc max_fused))
            (pos max_gap)
            selection
            indexes
          ≡ (done out, indexes'))
        × IsValid np plan spec files per_shard positive indexes'
        × Perm (all_members out) (gather (located plan spec files per_shard) units)
  unfolding ranges
  ranges-perm selection indexes units s p e valid long =
      let ranks = sym (units_per_shard-length plan spec per_shard s p) in
      let lengths =
        Every-mono (λ c k. k ∙ ranks) units (selected_units-length plan selection units e) in
      let (out, indexes', e', valid', perm) =
        unit_ranges-perm indexes units s p lengths valid long in
      (out, indexes', rw e e', valid', perm)

-- ===== src/Examples/Sharding.antt =====
-- Three chunks of a shard of eight bytes, of which one is not there.
use mathlib.Core.List.{Perm}
use czarr.Prelude.{
  ℕ, zero, suc, ◌-◌, ◌≡◌, ◌≤◌, refl, none, some, Option, List, [], ◌∷◌, slice, arith, done,
}
use czarr.Prelude.Gather.{gather}
use czarr.Prelude.Int.{pos}
use czarr.Coalesce.{coalesce_ranges, coalesce}
use czarr.Sharding.{Bytes, Coords, ShardIndex, Getter, Assigned, coalesced_chunk_fetch}
use czarr.Sharding.Fetch.{own_read, coalesced_chunk_fetch-perm}

abbrev shard : Bytes
shard = 10 ∷ 11 ∷ 12 ∷ 13 ∷ 14 ∷ 15 ∷ 16 ∷ 17 ∷ []

abbrev first_axis : Coords → Option (ℕ × ℕ)
first_axis [] = none
first_axis (zero ∷ c) = some (4, 6)
first_axis (suc zero ∷ c) = none
first_axis (suc (suc n) ∷ c) = some (1, 4)

ordered : (c : Coords) (a b : ℕ) → first_axis c ≡ some (a, b) → a ≤ b
ordered [] a b h = absurd cc
ordered (zero ∷ c) a b h = let e : 4 ≡ a = cc in let f : 6 ≡ b = cc in omega arith
ordered (suc zero ∷ c) a b h = absurd cc
ordered (suc (suc n) ∷ c) a b h = let e : 1 ≡ a = cc in let f : 4 ≡ b = cc in omega arith

abbrev index : ShardIndex
index = record { chunk_slice = first_axis; in_order = ordered }

abbrev serve : Getter
serve o e = done (some (slice shard o (e - o)))

abbrev requested : List Coords
requested = (0 ∷ []) ∷ (1 ∷ []) ∷ (2 ∷ []) ∷ []

coalesced_chunk_fetch-perm_example :
    (out : Assigned) × (coalesced_chunk_fetch serve index (pos 64) (pos 0) requested ≡ done out)
    × Perm out (gather (λ c. own_read shard c (first_axis c)) requested)
coalesced_chunk_fetch-perm_example =
    coalesced_chunk_fetch-perm shard serve index 63 0 requested (λ o e le. refl)

fetched :
    coalesced_chunk_fetch serve index (pos 64) (pos 0) requested
    ≡ done ((2 ∷ [], 11 ∷ 12 ∷ 13 ∷ []) ∷ (0 ∷ [], 14 ∷ 15 ∷ []) ∷ [])
unfolding coalesced_chunk_fetch coalesce_ranges coalesce
fetched = refl

-- ===== src/Plan/Ranges/Grouping.antt =====
-- The units by shard: each unit stands in the group of its shard, once for each time it is selected.
use mathlib.Core.List.{Perm, append_assoc, append-nil}
use mathlib.Core.List.Perm
use czarr.Prelude.{
  ℕ, ◌<◌, ◌≡◌, refl, sym, ◌∙◌, inl, inr, List, [], ◌∷◌, ◌++◌, length, Bool-cases, Every,
  Every-append, done,
}
use czarr.Prelude.Gather.{gather, gather-append, append-swap}
use czarr.Plan.Keys.{tuple_eq, tuple_ltb}
use czarr.Plan.Ranges.{Groups, add_to_shard, by_shard, insert_group, sort_groups}
use czarr.Plan.Ranges.Entries.{shard_of, zip-shard_of}
use czarr.Plan.Ranges.Cache.{tuple_eq→eq}

module _ {ℓ} {B : Type ℓ} (f : List ℕ → List B) where
  -- The results for the units of each group.
  abbrev pub grouped : List ℕ × List (List ℕ) → List B
  grouped g = gather f g.1

  add_to_shard-perm :
      (shard coords : List ℕ) (groups : Groups)
      → Perm (gather grouped (add_to_shard shard coords groups)) (f coords ++ gather grouped groups)
  unfolding add_to_shard
  add_to_shard-perm shard coords [] = rw (append-nil) Perm.rfl
  add_to_shard-perm shard coords (g ∷ groups) = elim (Bool-cases (tuple_eq g.0 shard)) [
    | inl e ↦
        rw (e, gather-append, append-nil, append_assoc)
          (append-swap (gather f g.1) (f coords) (gather grouped groups))
    | inr e ↦ rw e (
        Perm.trans (Perm.append_left (gather f g.1) (add_to_shard-perm shard coords groups))
          (append-swap (gather f g.1) (f coords) (gather grouped groups)))
  ]

  insert_group-perm :
      (g : List ℕ × List (List ℕ)) (groups : Groups)
      → Perm (gather grouped (insert_group g groups)) (gather grouped (g ∷ groups))
  unfolding insert_group
  insert_group-perm g [] = Perm.rfl
  insert_group-perm g (h ∷ groups) = elim (Bool-cases (tuple_ltb h.0 g.0)) [
    | inl e ↦ rw e (
        Perm.trans (Perm.append_left (gather f h.1) (insert_group-perm g groups))
          (append-swap (gather f h.1) (gather f g.1) (gather grouped groups)))
    | inr e ↦ rw e Perm.rfl
  ]

  pub sort_groups-perm :
      (groups : Groups) → Perm (gather grouped (sort_groups groups)) (gather grouped groups)
  unfolding sort_groups
  sort_groups-perm [] = Perm.rfl
  sort_groups-perm (g ∷ groups) =
      Perm.trans (insert_group-perm g (sort_groups groups))
        (Perm.append_left (gather f g.1) (sort_groups-perm groups))

module _ (per_shard : List ℕ) (positive : Every (λ p. 0 < p) per_shard) where
  -- The units of a group lie in the group's shard.
  abbrev pub IsGroup : List ℕ × List (List ℕ) → Type 0
  IsGroup g = Every (λ c. (shard_of c per_shard ≡ g.0) × (length c ≡ length per_shard)) g.1

  add_to_shard-IsGroup :
      (shard coords : List ℕ) (groups : Groups)
      → shard_of coords per_shard ≡ shard
      → length coords ≡ length per_shard
      → Every IsGroup groups
      → Every IsGroup (add_to_shard shard coords groups)
  unfolding add_to_shard
  add_to_shard-IsGroup shard coords [] e l h = (((e, l), tt), tt)
  add_to_shard-IsGroup shard coords (g ∷ groups) e l h = elim (Bool-cases (tuple_eq g.0 shard)) [
    | inl same ↦
        rw same (Every-append _ g.1 _ h.0 ((e ∙ sym (tuple_eq→eq g.0 shard same), l), tt), h.1)
    | inr other ↦ rw other (h.0, add_to_shard-IsGroup shard coords groups e l h.1)
  ]

  insert_group-IsGroup :
      (g : List ℕ × List (List ℕ)) (groups : Groups)
      → IsGroup g
      → Every IsGroup groups
      → Every IsGroup (insert_group g groups)
  unfolding insert_group
  insert_group-IsGroup g [] h k = (h, tt)
  insert_group-IsGroup g (x ∷ groups) h k = elim (Bool-cases (tuple_ltb x.0 g.0)) [
    | inl e ↦ rw e (k.0, insert_group-IsGroup g groups h k.1)
    | inr e ↦ rw e (h, k)
  ]

  pub sort_groups-IsGroup :
      (groups : Groups) → Every IsGroup groups → Every IsGroup (sort_groups groups)
  unfolding sort_groups
  sort_groups-IsGroup [] h = tt
  sort_groups-IsGroup (g ∷ groups) h =
      insert_group-IsGroup g (sort_groups groups) h.0 (sort_groups-IsGroup groups h.1)

  pub by_shard-IsGroup :
      {B : Type 0} (f : List ℕ → List B) (groups : Groups) (units : List (List ℕ))
      → Every IsGroup groups
      → Every (λ c. length c ≡ length per_shard) units
      → (out : Groups) × (by_shard per_shard groups units ≡ done out)
        × Every IsGroup out
        × Perm (gather (grouped f) out) (gather (grouped f) groups ++ gather f units)
  unfolding by_shard
  by_shard-IsGroup f groups [] h k = (groups, refl, h, rw append-nil Perm.rfl)
  by_shard-IsGroup f groups (c ∷ cs) h k =
      let shard = shard_of c per_shard in
      let (out, e, good, perm) =
        by_shard-IsGroup f (add_to_shard shard c groups) cs
          (add_to_shard-IsGroup shard c groups refl k.0 h) k.1 in
      let moved = Perm.append_right (gather f cs) (add_to_shard-perm f shard c groups) in
      let swapped = append-swap (f c) (gather (grouped f) groups) (gather f cs) in
      (
        out,
        rw (zip-shard_of c per_shard k.0 positive, e),
        good,
        Perm.trans perm (Perm.trans moved (rw append_assoc swapped)),
      )

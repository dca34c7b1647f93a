-- ===== src/PlanCache/Reopen.antt =====
-- A plan that was opened is there when it is opened again.
use czarr.Prelude.{
  ℕ, suc, ◌≡◌, refl, inl, inr, true, false, Option, none, some, [], ◌∷◌, ◌++◌, arith, length, ltb,
  Bool-cases, Outcome, done, raise,
}
use czarr.Prelude.Text.{String, str_eq, str_eq_refl}
use czarr.Plan.{DecodePlan}
use czarr.PlanCache.{
  Stat, same_stat, PlanCache, find, remove, put_last, trim, check_hit, lookup_plan, store_plan,
  after_load, after_lookup, open_plan,
}

same_stat_refl : (sig : Stat) → same_stat sig sig ≡ true
same_stat_refl sig = ground arith

pub same_stat→eq : (a b : Stat) → same_stat a b ≡ true → a ≡ b
same_stat→eq a b h =
    let e : a.0 ≡ b.0 = ground arith in
    let f : a.1 ≡ b.1 = ground arith in let g : a.2 ≡ b.2 = ground arith in λ i. (e i, f i, g i)

find-remove-append :
    (key : String) (entries : PlanCache) (sig : Stat) (plan : DecodePlan)
    → find key (remove key entries ++ (key, sig, plan) ∷ []) ≡ some (sig, plan)
unfolding find remove
find-remove-append key [] sig plan = rw (str_eq_refl key)
find-remove-append key (e ∷ entries) sig plan = elim (Bool-cases (str_eq e.0 key)) [
  | inl same ↦ rw same (find-remove-append key entries sig plan)
  | inr other ↦ rw (other, find, other) (find-remove-append key entries sig plan)
]

-- Trimming to one entry or more keeps the last one, which alone has its key.
find-trim :
    (key : String) (cap : ℕ) (entries : PlanCache) (sig : Stat) (plan : DecodePlan)
    → find key (trim (suc cap) (remove key entries ++ (key, sig, plan) ∷ [])) ≡ some (sig, plan)
unfolding find remove trim
find-trim key cap [] sig plan =
    let e : ltb (suc cap) 1 ≡ false = ground arith in rw (e, str_eq_refl key)
find-trim key cap (e ∷ entries) sig plan = elim (Bool-cases (str_eq e.0 key)) [
  | inl same ↦ rw same (find-trim key cap entries sig plan)
  | inr other ↦
      rw (other, trim)
        (elim (Bool-cases
          (ltb (suc cap) (length (e ∷ (remove key entries ++ (key, sig, plan) ∷ []))))) [
            | inl large ↦ rw large (find-trim key cap entries sig plan)
            | inr small ↦ rw (small, find, other) (find-remove-append key entries sig plan)
          ])
]

lookup_plan-hit :
    (key : String) (sig : Stat) (plan : DecodePlan) (cache : PlanCache)
    → find key cache ≡ some (sig, plan)
    → (lookup_plan key sig cache).0 ≡ some plan
unfolding lookup_plan check_hit
lookup_plan-hit key sig plan cache h = rw (h, same_stat_refl sig)

after_lookup-some :
    (key : String) (sig : Stat) (load : Outcome DecodePlan) (plan : DecodePlan)
    (found : Option DecodePlan × PlanCache)
    → found.0 ≡ some plan
    → (after_lookup key sig load found).0 ≡ done plan
after_lookup-some key sig load plan (none, cache) h = absurd (ground arith)
after_lookup-some key sig load plan (some p, cache) h = let e : p ≡ plan = cc in rw e refl

after_load-find :
    (key : String) (sig : Stat) (load : Outcome DecodePlan) (plan : DecodePlan) (cache : PlanCache)
    → (after_load key sig cache load).0 ≡ done plan
    → find key (after_load key sig cache load).1 ≡ some (sig, plan)
unfolding store_plan put_last
after_load-find key sig (raise e) plan cache h = absurd (ground arith)
after_load-find key sig (done p) plan cache h =
    let e : p ≡ plan = cc in rw e (find-trim key 31 cache sig plan)

-- A hit leaves the plan in the cache, and a miss stores the plan that it loads.
after_lookup-find :
    (key : String) (sig : Stat) (load : Outcome DecodePlan) (plan : DecodePlan) (cache : PlanCache)
    (found : Option (Stat × DecodePlan))
    → (after_lookup key sig load (check_hit key sig cache found)).0 ≡ done plan
    → find key (after_lookup key sig load (check_hit key sig cache found)).1 ≡ some (sig, plan)
unfolding check_hit store_plan put_last
after_lookup-find key sig load plan cache none h = after_load-find key sig load plan cache h
after_lookup-find key sig load plan cache (some (s, p)) h = elim (Bool-cases (same_stat s sig)) [
  | inl same ↦
      let kept : (after_lookup key sig load (some p, put_last (key, s, p) cache)).0 ≡ done plan =
        rw same at h in
      let p-plan : p ≡ plan = cc in
      rw same
        (rw (find-remove-append key cache s p) (λ i. some (same_stat→eq s sig same i, p-plan i)))
  | inr other ↦
      let loaded : (after_load key sig cache load).0 ≡ done plan = rw other at h in
      rw other (after_load-find key sig load plan cache loaded)
]

-- Where `open_plan` returned a plan, opening the same zarr.json again returns that plan, whatever
-- reading the file would give.
pub open_plan-again :
    (key : String) (sig : Stat) (load again : Outcome DecodePlan) (plan : DecodePlan)
    (cache : PlanCache)
    → (open_plan true key (some sig) load cache).0 ≡ done plan
    → (open_plan true key (some sig) again (open_plan true key (some sig) load cache).1).0
      ≡ done plan
unfolding open_plan lookup_plan
open_plan-again key sig load again plan cache h =
    let kept = after_lookup-find key sig load plan cache (find key cache) h in
    after_lookup-some key sig again plan _ (lookup_plan-hit key sig plan _ kept)

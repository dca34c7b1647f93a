-- ===== src/Examples/Opening.antt =====
-- Plans that are opened, and opened again after zarr.json was rewritten.
use czarr.Prelude.{
  ℕ, ◌≤◌, ◌≡◌, refl, ap, true, none, some, [], ◌∷◌, arith, done, raise, value_error,
}
use czarr.Prelude.Text.{String}
use czarr.Plan.{DecodePlan}
use czarr.PlanCache.{Stat, lookup_plan, store_plan, open_plan}
use czarr.PlanCache.Reopen.{open_plan-again}
use czarr.PlanCache.Versions.{World, Run, begin, more, storing, lookup_plan-between}

-- The plan of version v has v elements.
abbrev plan_of : String → ℕ → DecodePlan
plan_of key v = record {
  shape = v ∷ [];
  itemsize = 1;
  chunk_shape = 4 ∷ [];
  codecs = [];
  shard = none;
  key_separator = "/";
  key_prefix_c = true;
}

-- Each version has a modification time of its own.
abbrev stat_of : String → ℕ → Stat
stat_of key v = (7, v, 100)

open_plan_rewritten :
    (open_plan true "a"
      (some (stat_of "a" 1))
      (done (plan_of "a" 1))
      (store_plan "a" (stat_of "a" 0) (plan_of "a" 0) [])).0
    ≡ done (plan_of "a" 1)
unfolding open_plan store_plan lookup_plan
open_plan_rewritten = refl

open_plan-again_example :
    (open_plan true "a"
      (some (stat_of "a" 1))
      (raise value_error)
      (open_plan true "a" (some (stat_of "a" 1)) (done (plan_of "a" 1)) []).1).0
    ≡ done (plan_of "a" 1)
unfolding open_plan lookup_plan
open_plan-again_example =
    open_plan-again "a" (stat_of "a" 1) (done (plan_of "a" 1)) (raise value_error) (plan_of "a" 1)
      [] refl

abbrev stored : World stat_of plan_of
stored = record { now = λ key. 2; cache = store_plan "a" (stat_of "a" 1) (plan_of "a" 2) [] }

-- A thread sees version 1, the file is rewritten, and the thread reads version 2.
stored-Run : Run stat_of plan_of stored
stored-Run = more (begin (λ key. 2)) (storing _ "a" 1 2 (omega arith) (omega arith))

lookup_plan-between_example :
    (read : ℕ) × (plan_of "a" 2 ≡ plan_of "a" read) × (1 ≤ read) × (read ≤ 2)
unfolding lookup_plan store_plan
lookup_plan-between_example =
    lookup_plan-between stat_of plan_of stored "a" 1 (plan_of "a" 2) (λ a b e. ap (λ s. s.1) e)
      stored-Run refl

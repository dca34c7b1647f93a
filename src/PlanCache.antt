-- ===== src/PlanCache.antt =====
-- src/czarr/lowlevel/plan.py: `open_plan` and the process-wide LRU of plans. The entries of the
-- `OrderedDict` are a list, the oldest first; each of the two sections under the lock is one step.
pub mod Reopen
pub mod Versions
use czarr.Prelude.{
  ℕ, ◌+◌, ◌≡◌, Bool, true, false, ◌&&◌, Option, none, some, List, [], ◌∷◌, ◌++◌, length, ltb, ◌==◌,
  if◌then◌else◌, Outcome, done, raise, file_not_found,
}
use czarr.Prelude.Text.{String, str_eq}
use czarr.Plan.{DecodePlan}

-- `(st.st_ino, st.st_mtime_ns, st.st_size)`
abbrev pub Stat : Type 0
Stat = ℕ × ℕ × ℕ

abbrev pub same_stat : Stat → Stat → Bool
same_stat a b = (a.0 == b.0) && (a.1 == b.1) && (a.2 == b.2)

abbrev pub Entry : Type 0
Entry = String × Stat × DecodePlan

-- `_plan_cache`
abbrev pub PlanCache : Type 0
PlanCache = List Entry

abbrev pub plan_cache_cap : ℕ
plan_cache_cap = 32

-- `_plan_cache.get(key)`
unfoldable pub find : String → PlanCache → Option (Stat × DecodePlan)
find key [] = none
find key (e ∷ entries) = if str_eq e.0 key then some (e.1, e.2) else find key entries

unfoldable pub remove : String → PlanCache → PlanCache
remove key [] = []
remove key (e ∷ entries) = if str_eq e.0 key then remove key entries else e ∷ remove key entries

-- An entry at the end, where the key may have stood elsewhere: the assignment with `move_to_end`.
unfoldable pub put_last : Entry → PlanCache → PlanCache
unfolding remove
put_last e entries = remove e.0 entries ++ e ∷ []

-- `while len(_plan_cache) > cap: _plan_cache.popitem(last=False)`
unfoldable pub trim : ℕ → PlanCache → PlanCache
trim cap [] = []
trim cap (e ∷ entries) = if ltb cap (length (e ∷ entries)) then trim cap entries else e ∷ entries

-- What was found counts if its signature is the file's.
unfoldable pub check_hit :
    String → Stat → PlanCache → Option (Stat × DecodePlan) → Option DecodePlan × PlanCache
unfolding put_last
check_hit key sig cache none = (none, cache)
check_hit key sig cache (some (s, plan)) =
    if same_stat s sig then (some plan, put_last (key, s, plan) cache) else (none, cache)

-- The first section under the lock.
unfoldable pub lookup_plan : String → Stat → PlanCache → Option DecodePlan × PlanCache
unfolding check_hit find
lookup_plan key sig cache = check_hit key sig cache (find key cache)

-- The second section under the lock.
unfoldable pub store_plan : String → Stat → DecodePlan → PlanCache → PlanCache
unfolding put_last trim
store_plan key sig plan cache = trim plan_cache_cap (put_last (key, sig, plan) cache)

-- What follows the first section; `load` is what reading and parsing zarr.json gives.
abbrev pub after_load :
    String → Stat → PlanCache → Outcome DecodePlan → Outcome DecodePlan × PlanCache
after_load key sig cache (raise e) = (raise e, cache)
after_load key sig cache (done plan) = (done plan, store_plan key sig plan cache)

abbrev pub after_lookup :
    String
    → Stat
    → Outcome DecodePlan
    → Option DecodePlan × PlanCache
    → Outcome DecodePlan × PlanCache
after_lookup key sig load (none, cache) = after_load key sig cache load
after_lookup key sig load (some plan, cache) = (done plan, cache)

-- `open_plan(root, cached=)` in one thread, where `stat` is none if there is no zarr.json.
unfoldable pub open_plan :
    Bool → String → Option Stat → Outcome DecodePlan → PlanCache → Outcome DecodePlan × PlanCache
unfolding lookup_plan store_plan
open_plan false key stat load cache = (load, cache)
open_plan true key none load cache = (raise file_not_found, cache)
open_plan true key (some sig) load cache = after_lookup key sig load (lookup_plan key sig cache)

-- `clear_plan_cache`
abbrev pub clear_plans : PlanCache → PlanCache
clear_plans cache = []

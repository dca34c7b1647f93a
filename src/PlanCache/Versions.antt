-- ===== src/PlanCache/Versions.antt =====
-- What open_plan returns from the cache, whatever other threads and writers do in between.
use mathlib.Core.Path.{subst}
use czarr.Prelude.{
  ℕ, ◌≤◌, ◌≡◌, refl, inl, inr, Option, none, some, [], ◌∷◌, arith, length, ltb, Bool-cases, Every,
  Every-append, Every-mono,
}
use czarr.Prelude.Text.{String, str_eq, eq_iff}
use czarr.Plan.{DecodePlan}
use czarr.PlanCache.Reopen.{same_stat→eq}
use czarr.PlanCache.{
  Stat, same_stat, Entry, PlanCache, plan_cache_cap, find, remove, put_last, trim, check_hit,
  lookup_plan, store_plan, clear_plans,
}

-- zarr.json goes through versions, counted from 0 for each array; `stat_of` and `plan_of` are the
-- signature and the plan of a version.
module _ (stat_of : String → ℕ → Stat) (plan_of : String → ℕ → DecodePlan) where
  -- The signature of one version beside the plan of the same or a later one, not beyond the present.
  abbrev pub IsBetween : (String → ℕ) → Entry → Type 0
  IsBetween now e =
      (seen : ℕ) × (read : ℕ) × (e.1 ≡ stat_of e.0 seen)
      × (e.2 ≡ plan_of e.0 read)
      × (seen ≤ read)
      × (read ≤ now e.0)

  Every-remove :
      (P : Entry → Type 0) (key : String) (entries : PlanCache)
      → Every P entries
      → Every P (remove key entries)
  unfolding remove
  Every-remove P key [] h = tt
  Every-remove P key (e ∷ entries) h = elim (Bool-cases (str_eq e.0 key)) [
    | inl same ↦ rw same (Every-remove P key entries h.1)
    | inr other ↦ rw other (h.0, Every-remove P key entries h.1)
  ]

  Every-trim :
      (P : Entry → Type 0) (cap : ℕ) (entries : PlanCache)
      → Every P entries
      → Every P (trim cap entries)
  unfolding trim
  Every-trim P cap [] h = tt
  Every-trim P cap (e ∷ entries) h = elim (Bool-cases (ltb cap (length (e ∷ entries)))) [
    | inl large ↦ rw large (Every-trim P cap entries h.1)
    | inr small ↦ rw small h
  ]

  Every-find :
      (P : Entry → Type 0) (key : String) (entries : PlanCache) (x : Stat × DecodePlan)
      → Every P entries
      → find key entries ≡ some x
      → P (key, x.0, x.1)
  unfolding find
  Every-find P key [] x h e = absurd (ground arith)
  Every-find P key (e ∷ entries) x h found = elim (Bool-cases (str_eq e.0 key)) [
    | inl same ↦
        let k : e.0 ≡ key = (eq_iff e.0 key).0 same in
        let hit : some (e.1, e.2) ≡ some x = rw same at found in
        let v : (e.1, e.2) ≡ x = cc in subst P (λ i. (k i, (v i).0, (v i).1)) h.0
    | inr other ↦ Every-find P key entries x h.1 (rw other at found)
  ]

  Every-put_last :
      (P : Entry → Type 0) (e : Entry) (entries : PlanCache)
      → P e
      → Every P entries
      → Every P (put_last e entries)
  unfolding put_last
  Every-put_last P e entries h k =
      Every-append P (remove e.0 entries) _ (Every-remove P e.0 entries k) (h, tt)

  Every-check_hit :
      (P : Entry → Type 0) (key : String) (sig : Stat) (cache : PlanCache)
      (found : Option (Stat × DecodePlan))
      → find key cache ≡ found
      → Every P cache
      → Every P (check_hit key sig cache found).1
  unfolding check_hit
  Every-check_hit P key sig cache none e h = h
  Every-check_hit P key sig cache (some x) e h = elim (Bool-cases (same_stat x.0 sig)) [
    | inl same ↦ rw same (Every-put_last P (key, x.0, x.1) cache (Every-find P key cache x h e) h)
    | inr other ↦ rw other h
  ]

  -- The versions that the files have, and the cache.
  pub record World : Type 0 where
    pub now : String → ℕ
    pub cache : PlanCache

  abbrev IsSound : World → Type 0
  IsSound w = Every (IsBetween w.now) w.cache

  -- A writer replaces one zarr.json; a thread that saw version `seen` looks its plan up; one that
  -- saw version `seen` and has then read version `read` stores the plan; a thread clears the cache.
  pub data Step : World → World → Type 0 where
    rewriting :
        (w : World) (now : String → ℕ)
        → ((key : String) → w.now key ≤ now key)
        → Step w (record w { now = now })
    looking :
        (w : World) (key : String) (seen : ℕ)
        → Step w (record w { cache = (lookup_plan key (stat_of key seen) w.cache).1 })
    storing :
        (w : World) (key : String) (seen read : ℕ)
        → seen ≤ read
        → read ≤ w.now key
        → Step w (record w { cache = store_plan key (stat_of key seen) (plan_of key read) w.cache })
    clearing : (w : World) → Step w (record w { cache = clear_plans w.cache })

  -- The runs of a process, which starts with an empty cache.
  pub data Run : World → Type 0 where
    begin : (now : String → ℕ) → Run (record { now = now; cache = [] })
    more : {w v : World} → Run w → Step w v → Run v

  Step-IsSound : {w v : World} → Step w v → IsSound w → IsSound v
  unfolding lookup_plan store_plan
  Step-IsSound (rewriting w now later) h =
      Every-mono
        (λ e (seen, read, s, p, order, present).
          (seen, read, s, p, order, (let k = later e.0 in omega arith)))
        w.cache h
  Step-IsSound (looking w key seen) h =
      Every-check_hit (IsBetween w.now) key (stat_of key seen) w.cache (find key w.cache) refl h
  Step-IsSound (storing w key seen read order present) h =
      Every-trim (IsBetween w.now) plan_cache_cap _ (
        Every-put_last (IsBetween w.now) (key, stat_of key seen, plan_of key read) w.cache
          (seen, read, refl, refl, order, present) h)
  Step-IsSound (clearing w) h = tt

  Run-IsSound : {w : World} → Run w → IsSound w
  Run-IsSound (begin now) = tt
  Run-IsSound (more run step) = Step-IsSound step (Run-IsSound run)

  check_hit-some :
      (key : String) (sig : Stat) (cache : PlanCache) (found : Option (Stat × DecodePlan))
      (plan : DecodePlan)
      → (check_hit key sig cache found).0 ≡ some plan
      → found ≡ some (sig, plan)
  unfolding check_hit
  check_hit-some key sig cache none plan h = absurd (ground arith)
  check_hit-some key sig cache (some x) plan h = elim (Bool-cases (same_stat x.0 sig)) [
    | inl same ↦
        let hit : some x.1 ≡ some plan = rw same at h in
        let p : x.1 ≡ plan = cc in λ i. some (same_stat→eq x.0 sig same i, p i)
    | inr other ↦ let miss : none ≡ some plan = rw other at h in absurd (ground arith)
  ]

  -- Where each version of a zarr.json has a signature of its own, a thread that saw the signature
  -- of version `seen` and hits the cache gets the plan of a version from `seen` to the present one,
  -- whatever other threads and writers did before.
  pub lookup_plan-between :
      (w : World) (key : String) (seen : ℕ) (plan : DecodePlan)
      → ((a b : ℕ) → stat_of key a ≡ stat_of key b → a ≡ b)
      → Run w
      → (lookup_plan key (stat_of key seen) w.cache).0 ≡ some plan
      → (read : ℕ) × (plan ≡ plan_of key read) × (seen ≤ read) × (read ≤ w.now key)
  unfolding lookup_plan
  lookup_plan-between w key seen plan distinct run h =
      let sig = stat_of key seen in
      let found = check_hit-some key sig w.cache (find key w.cache) plan h in
      let (version, read, s, p, order, present) =
        Every-find (IsBetween w.now) key w.cache (sig, plan) (Run-IsSound run) found in
      let same = distinct seen version s in (read, p, omega arith, present)

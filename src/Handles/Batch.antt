-- ===== src/Handles/Batch.antt =====
-- src/czarr/cufile.py: `read_into_many`, which takes every handle, reads, and lets every handle go. What
-- the operating system and cuFile answer for a request stands beside it.
use czarr.Prelude.{
  ℕ, ◌+◌, ◌≡◌, inl, inr, Bool, Option, List, [], ◌∷◌, ◌++◌, arith, ◌==◌, if◌then◌else◌, Bool-cases,
  Outcome, done, raise, ◌>>=◌,
}
use czarr.Prelude.Text.{String}
use czarr.Handles.{Handles, Signature, acquire, release}
use czarr.Handles.Core.{count_held}
use czarr.Handles.Safety.{Reach, next, acquiring, releasing, holding, Reach-open_iff}

pub record Request : Type 0 where
  pub path : String
  pub size : ℕ
  pub stat : Option Signature
  pub registers : Bool
  pub got : Outcome ℕ

-- The outcome of the acquisitions, the entries that were acquired, and the cache.
abbrev pub Acquired : Type 0
Acquired = Outcome (Unit {0}) × List ℕ × Handles

abbrev pub on_acquired : List ℕ → (Handles → List ℕ → Acquired) → Outcome ℕ × Handles → Acquired
on_acquired entries rest (raise e, s) = (raise e, entries, s)
on_acquired entries rest (done i, s) = rest s (entries ++ i ∷ [])

-- Phase 1: a request of size 0 takes no handle.
unfoldable pub acquire_all : Handles → List ℕ → List Request → Acquired
acquire_all s entries [] = (done tt, entries, s)
acquire_all s entries (r ∷ requests) =
    if r.size == 0
    then acquire_all s entries requests
    else on_acquired entries (λ t acquired. acquire_all t acquired requests)
        (acquire s r.path r.stat r.registers)

-- Phase 2: the byte counts in the order of the requests, or the first error.
unfoldable pub read_all : List Request → Outcome (List ℕ)
read_all [] = done []
read_all (r ∷ requests) = do
  n ← if r.size == 0 then done 0 else r.got
  ns ← read_all requests
  done (n ∷ ns)

-- The `finally` block.
unfoldable pub release_all : Handles → List ℕ → Handles
release_all s [] = s
release_all s (i ∷ entries) = release_all (release s i) entries

abbrev pub finish : List Request → Acquired → Outcome (List ℕ) × Handles
finish requests (raise e, entries, s) = (raise e, release_all s entries)
finish requests (done _, entries, s) = (read_all requests, release_all s entries)

-- `read_into_many`, where `driver` is the outcome of `ensure_driver_open`.
unfoldable pub read_into_many :
    Outcome (Unit {0}) → Handles → List Request → Outcome (List ℕ) × Handles
unfolding acquire_all read_all release_all
read_into_many driver s [] = (done [], s)
read_into_many (raise e) s (r ∷ requests) = (raise e, s)
read_into_many (done _) s (r ∷ requests) = finish (r ∷ requests) (acquire_all s [] (r ∷ requests))

count_held-append :
    (j : ℕ) (xs ys : List ℕ) → count_held j (xs ++ ys) ≡ count_held j xs + count_held j ys
count_held-append j [] ys = omega arith
count_held-append j (x ∷ xs) ys = omega (arith, count_held-append j xs ys)

-- The threads hold what they held before, and the entries of the batch.
abbrev HoldsBoth : List ℕ → Handles → List ℕ → Type 0
HoldsBoth held s entries =
    (all_held : List ℕ) × Reach s all_held
    × ((j : ℕ) → count_held j all_held ≡ count_held j entries + count_held j held)

on_acquired-HoldsBoth :
    (held all_held : List ℕ) (entries : List ℕ) (rest : Handles → List ℕ → Acquired)
    (got : Outcome ℕ × Handles)
    → ((j : ℕ) → count_held j all_held ≡ count_held j entries + count_held j held)
    → Reach got.1 (holding got.0 all_held)
    → ((t : Handles) (acquired : List ℕ)
        → HoldsBoth held t acquired
        → HoldsBoth held (rest t acquired).2 (rest t acquired).1)
    → HoldsBoth held (on_acquired entries rest got).2 (on_acquired entries rest got).1
on_acquired-HoldsBoth held all_held entries rest (raise e, t) counts reach later =
    (all_held, reach, counts)
on_acquired-HoldsBoth held all_held entries rest (done i, t) counts reach later =
    later t (entries ++ i ∷ [])
      (i ∷ all_held, reach, λ j. omega (arith, counts j, count_held-append j entries (i ∷ [])))

acquire_all-HoldsBoth :
    (held : List ℕ) (s : Handles) (entries : List ℕ) (requests : List Request)
    → HoldsBoth held s entries
    → HoldsBoth held (acquire_all s entries requests).2 (acquire_all s entries requests).1
unfolding acquire_all
acquire_all-HoldsBoth held s entries [] h = h
acquire_all-HoldsBoth held s entries (r ∷ requests) (all_held, reach, counts) =
    elim (Bool-cases (r.size == 0)) [
      | inl empty ↦
          simp empty (acquire_all-HoldsBoth held s entries requests (all_held, reach, counts))
      | inr full ↦ simp full (
          on_acquired-HoldsBoth held all_held entries
            (λ t acquired. acquire_all t acquired requests) (acquire s r.path r.stat r.registers)
            counts (next reach (acquiring s all_held r.path r.stat r.registers))
            (λ t acquired h. acquire_all-HoldsBoth held t acquired requests h))
    ]

release_all-Reach :
    (held : List ℕ) (s : Handles) (entries : List ℕ)
    → HoldsBoth held s entries
    → HoldsBoth held (release_all s entries) []
unfolding release_all
release_all-Reach held s [] h = h
release_all-Reach held s (i ∷ entries) (all_held, reach, counts) =
    release_all-Reach held (release s i) entries (
      entries ++ held,
      next reach (
          releasing s all_held (entries ++ held) i
            (λ j. omega (arith, counts j, count_held-append j entries held))),
      λ j. count_held-append j entries held,
    )

finish-Reach :
    (held : List ℕ) (requests : List Request) (acquired : Acquired)
    → HoldsBoth held acquired.2 acquired.1
    → HoldsBoth held (finish requests acquired).1 []
finish-Reach held requests (raise e, entries, s) h = release_all-Reach held s entries h
finish-Reach held requests (done u, entries, s) h = release_all-Reach held s entries h

read_into_many-HoldsBoth :
    (driver : Outcome (Unit {0})) (s : Handles) (held : List ℕ) (requests : List Request)
    → Reach s held
    → HoldsBoth held (read_into_many driver s requests).1 []
unfolding read_into_many
read_into_many-HoldsBoth driver s held [] reach = (held, reach, λ j. omega arith)
read_into_many-HoldsBoth (raise e) s held (r ∷ requests) reach = (held, reach, λ j. omega arith)
read_into_many-HoldsBoth (done u) s held (r ∷ requests) reach =
    finish-Reach held (r ∷ requests) _
      (acquire_all-HoldsBoth held s [] (r ∷ requests) (held, reach, λ j. omega arith))

-- From every state that the threads can reach, a batch that runs without other threads in between,
-- whether it returns or a missing file, a registration or a read raises, leaves each reference count
-- as it was.
pub refs-read_into_many :
    (driver : Outcome (Unit {0})) (s : Handles) (held : List ℕ) (requests : List Request) (i : ℕ)
    → Reach s held
    → ((read_into_many driver s requests).1.heap i).refs ≡ (s.heap i).refs
refs-read_into_many driver s held requests i reach =
    let (all_held, after, counts) = read_into_many-HoldsBoth driver s held requests reach in
    let then_ = (Reach-open_iff i after).1 in
    let before = (Reach-open_iff i reach).1 in let same = counts i in omega arith

-- ===== src/Handles/Core.antt =====
-- The invariant of the handle cache, for its parts, and that each part of an operation keeps it.
use mathlib.Core.Path.{subst}
use czarr.Prelude.{
  one_if, ℕ, suc, ◌+◌, ◌-◌, ◌≤◌, ◌≡◌, refl, ◌∙◌, inl, inr, true, false, ◌&&◌, none, some, List, [],
  ◌∷◌, arith, Bool-cases, length, ltb, ◌==◌, if◌then◌else◌,
}
use czarr.Prelude.Text.{String, eq_iff}
use czarr.Handles.Paths.{
  Dict, get, put, move_to_end, count_value, count_key, count_value-delete, count_key_of_none,
  count_value-put, count_key-put, count_value-move_to_end, count_key-move_to_end,
}
use czarr.Handles.{Signature, CachedHandle, update, retire, evict, retire_all}

-- The handles that readers hold, each as often as it was acquired and not released.
abbrev pub count_held : ℕ → List ℕ → ℕ
count_held i [] = 0
count_held i (j ∷ held) = one_if (i == j) + count_held i held

-- What holds of one object, for the number of its places in the cache.
abbrev pub Sound : CachedHandle → ℕ → Type 0
Sound h cached = (h.is_open ≡ ltb 0 (cached + h.refs)) × (h.dead ≡ (cached == 0)) × (cached ≤ 1)

-- The objects, the cache and the next name, beside the handles that are held.
pub record Core (heap : ℕ → CachedHandle) (cache : Dict) (fresh : ℕ) (held : List ℕ) : Type 0 where
  pub sound : (i : ℕ) → Sound (heap i) (count_value i cache)
  pub keys : (key : String) → count_key key cache ≤ 1
  pub held_refs : (i : ℕ) → (heap i).refs ≡ count_held i held
  pub unused : (i : ℕ) → fresh ≤ i → (count_value i cache ≡ 0) × ((heap i).refs ≡ 0)

retire-Sound :
    (heap : ℕ → CachedHandle) (i j n m : ℕ)
    → m ≡ one_if (j == i) + n
    → Sound (heap j) m
    → Sound (retire heap i j) n
retire-Sound heap i j n m e h = ground arith

refs-retire :
    (heap : ℕ → CachedHandle) (i j : ℕ)
    → CachedHandle.refs (retire heap i j) ≡ CachedHandle.refs (heap j)
refs-retire heap i j = ground arith

module _ (heap : ℕ → CachedHandle) (cache : Dict) (fresh : ℕ) (held : List ℕ)
    (core : Core heap cache fresh held) where
  -- An object leaves the cache and is retired.
  pub retire-Core :
      (i : ℕ) (cache' : Dict)
      → ((j : ℕ) → count_value j cache ≡ one_if (j == i) + count_value j cache')
      → ((key : String) → count_key key cache' ≤ count_key key cache)
      → Core (retire heap i) cache' fresh held
  retire-Core i cache' values keys = record {
    sound = λ j. retire-Sound heap i j _ _ (values j) (core.sound j);
    keys = λ key. omega (arith, keys key, core.keys key);
    held_refs = λ j. refs-retire heap i j ∙ core.held_refs j;
    unused = λ j le. (
      omega (arith, values j, (core.unused j le).0),
      refs-retire heap i j ∙ (core.unused j le).1,
    );
  }

  -- A hit: the object is held once more, and moves within the cache.
  pub hit-Core :
      (key : String) (i : ℕ)
      → get key cache ≡ some i
      → Core
          (update heap i (record (heap i) { refs = (heap i).refs + 1 }))
          (move_to_end key i cache)
          fresh
          (i ∷ held)
  hit-Core key i found = record {
    sound = λ j.
        rw (count_value-move_to_end j i key cache found)
          (let s = core.sound j in let c = cached_once key i found in ground arith);
    keys = λ q. rw (count_key-move_to_end q key i cache found) (core.keys q);
    held_refs = λ j. let r = core.held_refs j in ground arith;
    unused = λ j le.
        rw (count_value-move_to_end j i key cache found)
          (let u = core.unused j le in let c = cached_once key i found in (u.0, ground arith));
  }
    where
      cached_once : (key : String) (i : ℕ) → get key cache ≡ some i → 1 ≤ count_value i cache
      cached_once key i found = let d = count_value-delete i i key cache found in ground arith

  -- A new object under a path that is not in the cache.
  pub insert-Core :
      (key : String) (sig : Signature)
      → get key cache ≡ none
      → Core
          (update heap fresh
            (record { sig = sig; refs = 1; dead = false; is_open = true; opened = sig }))
          (put key fresh cache)
          (suc fresh)
          (fresh ∷ held)
  insert-Core key sig absent = record {
    sound = λ j.
        rw (count_value-put j fresh key cache absent)
          (let s = core.sound j in let u = core.unused fresh (omega arith) in ground arith);
    keys = λ q.
        rw (count_key-put q key fresh cache absent)
          (let k = core.keys q in let z = key_absent q in ground (arith, eq_iff key q));
    held_refs =
        λ j. let r = core.held_refs j in let u = core.unused fresh (omega arith) in ground arith;
    unused = λ j le.
        rw (count_value-put j fresh key cache absent)
          (let u = core.unused j (omega arith) in (ground arith, ground arith));
  }
    where
      key_absent : (q : String) → key ≡ q → count_key q cache ≡ 0
      key_absent q e = subst (λ k. count_key k cache ≡ 0) e (count_key_of_none key cache absent)

  -- One of the holders lets go; a dead object without holders is closed.
  pub release-Core :
      (i : ℕ) (held' : List ℕ)
      → ((j : ℕ) → count_held j held ≡ one_if (j == i) + count_held j held')
      → Core
          (update heap i (record (heap i) {
            refs = (heap i).refs - 1;
            is_open = if (heap i).dead && ((heap i).refs - 1 == 0) then false else (heap i).is_open;
          }))
          cache
          fresh
          held'
  release-Core i held' holders = record {
    sound =
        λ j. let s = core.sound j in let r = core.held_refs j in let h = holders j in ground arith;
    keys = core.keys;
    held_refs = λ j. let r = core.held_refs j in let h = holders j in ground arith;
    unused = λ j le.
        let u = core.unused j le in
        let r = core.held_refs j in let h = holders j in (u.0, ground arith);
  }

-- Popping the oldest entries keeps the invariant, and leaves at most `cap`.
pub evict-Core :
    (cap : ℕ) (heap : ℕ → CachedHandle) (cache : Dict) (fresh : ℕ) (held : List ℕ)
    → Core heap cache fresh held
    → Core (evict cap heap cache).0 (evict cap heap cache).1 fresh held
unfolding evict
evict-Core cap heap [] fresh held core = core
evict-Core cap heap ((k, i) ∷ rest) fresh held core =
    elim (Bool-cases (ltb cap (suc (length rest)))) [
      | inl over ↦ rw over (
          evict-Core cap (retire heap i) rest fresh held (
            retire-Core heap ((k, i) ∷ rest) fresh held core i rest
              (λ j. unfold count_value in refl) (λ q. unfold count_key in omega arith)))
      | inr fits ↦ rw fits core
    ]

pub length-evict :
    (cap : ℕ) (heap : ℕ → CachedHandle) (cache : Dict) → length (evict cap heap cache).1 ≤ cap
unfolding evict
length-evict cap heap [] = omega arith
length-evict cap heap ((k, i) ∷ rest) = ground (arith, length-evict cap (retire heap i) rest)

pub retire_all-Core :
    (heap : ℕ → CachedHandle) (cache : Dict) (fresh : ℕ) (held : List ℕ)
    → Core heap cache fresh held
    → Core (retire_all heap cache) [] fresh held
unfolding retire_all
retire_all-Core heap [] fresh held core = core
retire_all-Core heap ((k, i) ∷ rest) fresh held core =
    retire_all-Core (retire heap i) rest fresh held (
      retire-Core heap ((k, i) ∷ rest) fresh held core i rest (λ j. unfold count_value in refl)
        (λ q. unfold count_key in omega arith))

-- ===== src/Handles/Safety.antt =====
-- Any sequence of acquisitions, releases and clears: a handle is open exactly while it is cached or
-- in use.
use czarr.Prelude.{
  one_if, ℕ, suc, ◌+◌, ◌≤◌, ◌<◌, ◌≡◌, refl, ◌↔◌, ◌⊎◌, inl, inr, Bool, true, false, Option, none,
  some, List, [], ◌∷◌, arith, Bool-cases, length, ◌==◌, Outcome, done, raise,
}
use czarr.Prelude.Text.{String, str_eq, eq_iff}
use czarr.Handles.Paths.{
  Dict, get, delete, count_value, count_key, count_value-delete, count_key-delete,
  get_none-count_key, length-delete, length-move_to_end,
}
use czarr.Handles.{
  Signature, same_signature, Handles, init, handle_cache_cap, drop_stale, register, hit,
  acquire_entry, acquire, release, clear,
}
use czarr.Handles.Core.{
  Core, count_held, retire-Core, hit-Core, insert-Core, release-Core, evict-Core, length-evict,
  retire_all-Core,
}

-- The invariant of a state and the handles that are held in it.
pub record IsSafe (s : Handles) (held : List ℕ) : Type 0 where
  pub core : Core s.heap s.cache s.fresh held
  pub small : length s.cache ≤ handle_cache_cap

pub init-IsSafe : IsSafe init []
init-IsSafe = record {
  core = record {
    sound = λ i. unfold count_value in (refl, refl, omega arith);
    keys = λ key. unfold count_key in omega arith;
    held_refs = λ i. refl;
    unused = λ i h. unfold count_value in (refl, refl);
  };
  small = omega arith;
}

-- The handles that are held after an acquisition.
abbrev pub holding : Outcome ℕ → List ℕ → List ℕ
holding (done i) held = i ∷ held
holding (raise e) held = held

register-IsSafe :
    (s : Handles) (key : String) (sig : Signature) (registers : Bool) (held : List ℕ)
    → IsSafe s held
    → get key s.cache ≡ none
    → IsSafe (register s key sig registers).1 (holding (register s key sig registers).0 held)
unfolding register
register-IsSafe s key sig false held safe absent = safe
register-IsSafe s key sig true held safe absent = record {
  core =
      evict-Core handle_cache_cap _ _ (suc s.fresh) (s.fresh ∷ held)
        (insert-Core s.heap s.cache s.fresh held safe.core key sig absent);
  small = length-evict handle_cache_cap _ _;
}

-- Behind the deletion the path is not in the cache.
get-delete :
    (key : String) (i : ℕ) (d : Dict)
    → get key d ≡ some i
    → count_key key d ≤ 1
    → get key (delete key d) ≡ none
get-delete key i d found once =
    let self : str_eq key key ≡ true = (eq_iff key key).1 refl in
    let c = count_key-delete key key i d found in
    get_none-count_key key (delete key d) (ground arith)

drop_stale-IsSafe :
    (s : Handles) (key : String) (i : ℕ) (held : List ℕ)
    → IsSafe s held
    → get key s.cache ≡ some i
    → IsSafe (drop_stale s key i) held
unfolding drop_stale
drop_stale-IsSafe s key i held safe found = record {
  core =
      retire-Core s.heap s.cache s.fresh held safe.core i (delete key s.cache)
        (λ j. omega (arith, count_value-delete j i key s.cache found))
        (λ q. omega (arith, count_key-delete q key i s.cache found));
  small = omega (arith, length-delete key i s.cache found, safe.small);
}

hit-IsSafe :
    (s : Handles) (key : String) (i : ℕ) (held : List ℕ)
    → IsSafe s held
    → get key s.cache ≡ some i
    → IsSafe (hit s key i) (i ∷ held)
unfolding hit
hit-IsSafe s key i held safe found = record {
  core = hit-Core s.heap s.cache s.fresh held safe.core key i found;
  small = omega (arith, length-move_to_end key i s.cache found, safe.small);
}

acquire_entry-IsSafe :
    (s : Handles) (key : String) (sig : Signature) (registers : Bool) (held : List ℕ) (o : Option ℕ)
    → IsSafe s held
    → get key s.cache ≡ o
    → IsSafe
        (acquire_entry s key sig registers o).1
        (holding (acquire_entry s key sig registers o).0 held)
unfolding acquire_entry
acquire_entry-IsSafe s key sig registers held none safe absent =
    register-IsSafe s key sig registers held safe absent
acquire_entry-IsSafe s key sig registers held (some i) safe found =
    elim (Bool-cases (same_signature (s.heap i).sig sig)) [
      | inl same ↦ rw same (hit-IsSafe s key i held safe found)
      | inr stale ↦ rw stale (
          register-IsSafe (drop_stale s key i) key sig registers held
            (drop_stale-IsSafe s key i held safe found)
            (unfold drop_stale in get-delete key i s.cache found (safe.core.keys key)))
    ]

-- An acquisition keeps the invariant, whichever way it goes; the handle that it returns is held.
pub acquire-IsSafe :
    (s : Handles) (key : String) (stat : Option Signature) (registers : Bool) (held : List ℕ)
    → IsSafe s held
    → IsSafe (acquire s key stat registers).1 (holding (acquire s key stat registers).0 held)
unfolding acquire
acquire-IsSafe s key none registers held safe = safe
acquire-IsSafe s key (some sig) registers held safe =
    acquire_entry-IsSafe s key sig registers held (get key s.cache) safe refl

pub release-IsSafe :
    (s : Handles) (i : ℕ) (held held' : List ℕ)
    → IsSafe s held
    → ((j : ℕ) → count_held j held ≡ one_if (j == i) + count_held j held')
    → IsSafe (release s i) held'
unfolding release
release-IsSafe s i held held' safe holders = record {
  core = release-Core s.heap s.cache s.fresh held safe.core i held' holders;
  small = safe.small;
}

pub clear-IsSafe : (s : Handles) (held : List ℕ) → IsSafe s held → IsSafe (clear s) held
unfolding clear
clear-IsSafe s held safe = record {
  core = retire_all-Core s.heap s.cache s.fresh held safe.core;
  small = omega arith;
}

-- The operations of the threads, in the order in which they take the lock. A thread releases only
-- what it holds.
pub data Step : Handles → List ℕ → Handles → List ℕ → Type 0 where
  acquiring :
      (s : Handles) (held : List ℕ) (key : String) (stat : Option Signature) (registers : Bool)
      → Step s held (acquire s key stat registers).1 (holding (acquire s key stat registers).0 held)
  releasing :
      (s : Handles) (held held' : List ℕ) (i : ℕ)
      → ((j : ℕ) → count_held j held ≡ one_if (j == i) + count_held j held')
      → Step s held (release s i) held'
  clearing : (s : Handles) (held : List ℕ) → Step s held (clear s) held

pub data Reach : Handles → List ℕ → Type 0 where
  start : Reach init []
  next : {s t : Handles} {held held' : List ℕ} → Reach s held → Step s held t held' → Reach t held'

Step-IsSafe :
    {s t : Handles} {held held' : List ℕ} → Step s held t held' → IsSafe s held → IsSafe t held'
Step-IsSafe (acquiring s held key stat registers) safe =
    acquire-IsSafe s key stat registers held safe
Step-IsSafe (releasing s held held' i holders) safe = release-IsSafe s i held held' safe holders
Step-IsSafe (clearing s held) safe = clear-IsSafe s held safe

pub Reach-IsSafe : {s : Handles} {held : List ℕ} → Reach s held → IsSafe s held
Reach-IsSafe start = init-IsSafe
Reach-IsSafe (next r step) = Step-IsSafe step (Reach-IsSafe r)

-- In every state that the threads can reach, an object's fd is open exactly if the object is in the
-- cache or some thread holds it, and its reference count is the number of times that it is held.
pub Reach-open_iff :
    {s : Handles} {held : List ℕ} (i : ℕ)
    → Reach s held
    → (((s.heap i).is_open ≡ true) ↔ ((0 < count_value i s.cache) ⊎ (0 < count_held i held)))
      × ((s.heap i).refs ≡ count_held i held)
Reach-open_iff i r =
    let safe = Reach-IsSafe r in
    let sound = safe.core.sound i in
    let refs = safe.core.held_refs i in ((λ e. ground arith, λ h. ground arith), refs)

-- In every state that the threads can reach, at most 128 entries are cached, one for a path and
-- one for an object, and no cached entry is dead.
pub Reach-cache :
    {s : Handles} {held : List ℕ} (i : ℕ) (key : String)
    → Reach s held
    → (length s.cache ≤ 128)
      × (count_key key s.cache ≤ 1)
      × (count_value i s.cache ≤ 1)
      × (0 < count_value i s.cache → (s.heap i).dead ≡ false)
Reach-cache i key r =
    let safe = Reach-IsSafe r in
    let sound = safe.core.sound i in (safe.small, safe.core.keys key, sound.2, λ h. ground arith)

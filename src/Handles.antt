-- ===== src/Handles.antt =====
-- src/czarr/cufile.py: the process-wide cache of registered file handles. It is a refcounted LRU
-- keyed by path; the lock makes each operation one step. A `_CachedHandle` is an object of the heap,
-- named by a number; `is_open` is the state of its fd and cuFile handle in the operating system, and
-- `opened` the signature of the file that the fd was opened on, which no operation of the cache reads. A
-- file is not replaced between the `os.stat` and the `os.open` of one call.
pub mod Batch
pub mod Paths
pub mod Core
pub mod Fresh
pub mod Safety
pub mod Single
use Paths.{Dict, get, delete, put, move_to_end}
use czarr.Prelude.{
  ℕ, zero, suc, ◌+◌, ◌-◌, ◌<◌, ◌≡◌, Bool, true, false, ◌&&◌, Option, none, some, List, [], ◌∷◌,
  length, ltb, ◌==◌, if◌then◌else◌, Outcome, done, raise, file_not_found, os_error,
}
use czarr.Prelude.Text.{String}

-- (st_ino, st_mtime_ns, st_size)
abbrev pub Signature : Type 0
Signature = ℕ × ℕ × ℕ

abbrev pub same_signature : Signature → Signature → Bool
same_signature (a, b, c) (d, e, f) = a == d && b == e && c == f

-- `_CachedHandle`
pub record CachedHandle : Type 0 where
  pub sig : Signature
  pub refs : ℕ
  pub dead : Bool
  pub is_open : Bool
  pub opened : Signature

-- `_handle_cache` in its order, oldest first, and the objects; `fresh` names the next object.
pub record Handles : Type 0 where
  pub heap : ℕ → CachedHandle
  pub cache : Dict
  pub fresh : ℕ

-- No object has been made under the name.
abbrev pub no_handle : CachedHandle
no_handle = record { sig = (0, 0, 0); refs = 0; dead = true; is_open = false; opened = (0, 0, 0) }

abbrev pub init : Handles
init = record { heap = λ i. no_handle; cache = []; fresh = 0 }

-- `_HANDLE_CACHE_CAP`
abbrev pub handle_cache_cap : ℕ
handle_cache_cap = 128

abbrev pub update : (ℕ → CachedHandle) → ℕ → CachedHandle → ℕ → CachedHandle
update heap i h j = if j == i then h else heap j

-- `entry.dead = True; if entry.refs == 0: _destroy_entry(entry)`. A failing deregistration or close
-- is ignored.
abbrev pub retired : CachedHandle → CachedHandle
retired h = record h { dead = true; is_open = if h.refs == 0 then false else h.is_open }

abbrev pub retire : (ℕ → CachedHandle) → ℕ → ℕ → CachedHandle
retire heap i = update heap i (retired (heap i))

-- `while len(_handle_cache) > cap: popitem(last=False)`, with each popped entry retired
pub evict : ℕ → (ℕ → CachedHandle) → Dict → (ℕ → CachedHandle) × Dict
evict cap heap [] = (heap, [])
evict cap heap ((k, i) ∷ rest) =
    let later = evict cap (retire heap i) rest in
    if ltb cap (suc (length rest)) then later else (heap, (k, i) ∷ rest)

-- `for entry in _handle_cache.values()` of `clear_handle_cache`
pub retire_all : (ℕ → CachedHandle) → Dict → ℕ → CachedHandle
retire_all heap [] = heap
retire_all heap ((k, i) ∷ rest) = retire_all (retire heap i) rest

-- The path is in the cache under another signature: `entry.dead = True`, `del _handle_cache[key]`.
drop_stale : Handles → String → ℕ → Handles
drop_stale s key i = record s { heap = retire s.heap i; cache = delete key s.cache }

-- `_register_path`, and the insertion of the new entry. `registers` says whether the registration
-- succeeds; where it fails the fd is closed again and the error goes on.
register : Handles → String → Signature → Bool → Outcome ℕ × Handles
register s key sig false = (raise os_error, s)
register s key sig true =
    let i = s.fresh in
    let h : CachedHandle = record {
      sig = sig;
      refs = 1;
      dead = false;
      is_open = true;
      opened = sig;
    } in
    let (heap, cache) = evict handle_cache_cap (update s.heap i h) (put key i s.cache) in
    (done i, record { heap = heap; cache = cache; fresh = suc i })

-- A hit: `entry.refs += 1`, `move_to_end`.
hit : Handles → String → ℕ → Handles
hit s key i = record s {
  heap = update s.heap i (record (s.heap i) { refs = (s.heap i).refs + 1 });
  cache = move_to_end key i s.cache;
}

-- `_acquire_handle` behind `os.stat` and `_handle_cache.get(key)`.
acquire_entry : Handles → String → Signature → Bool → Option ℕ → Outcome ℕ × Handles
acquire_entry s key sig registers none = register s key sig registers
acquire_entry s key sig registers (some i) =
    if same_signature (s.heap i).sig sig
    then (done i, hit s key i)
    else register (drop_stale s key i) key sig registers

-- `_acquire_handle`: the signature is what `os.stat` reports, `none` where the file is missing.
unfoldable pub acquire : Handles → String → Option Signature → Bool → Outcome ℕ × Handles
unfolding acquire_entry drop_stale register hit evict put delete move_to_end get
acquire s key none registers = (raise file_not_found, s)
acquire s key (some sig) registers = acquire_entry s key sig registers (get key s.cache)

-- `_release_handle`
unfoldable pub release : Handles → ℕ → Handles
release s i =
    let h = s.heap i in
    let h' = record h {
      refs = h.refs - 1;
      is_open = if h.dead && (h.refs - 1 == 0) then false else h.is_open;
    } in
    record s { heap = update s.heap i h' }

-- `clear_handle_cache`
unfoldable pub clear : Handles → Handles
unfolding retire_all
clear s = record s { heap = retire_all s.heap s.cache; cache = [] }

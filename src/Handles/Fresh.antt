-- ===== src/Handles/Fresh.antt =====
-- A handle that `_acquire_handle` of src/czarr/cufile.py returns belongs to the file as it is now.
use czarr.Prelude.{
  ℕ, suc, ◌<◌, ◌≡◌, refl, ◌∙◌, inl, inr, Bool, true, false, Option, none, some, List, [], ◌∷◌,
  arith, Bool-cases, length, ltb, done,
}
use czarr.Prelude.Text.{String}
use czarr.Handles.Paths.{Dict, get}
use czarr.Handles.{
  Signature, same_signature, CachedHandle, Handles, handle_cache_cap, retire, evict, retire_all,
  drop_stale, register, hit, acquire_entry, acquire, release, clear,
}
use czarr.Handles.Core.{count_held}
use czarr.Handles.Safety.{
  Step, acquiring, releasing, clearing, Reach, start, next, holding, Reach-open_iff,
}

sig-evict :
    (cap : ℕ) (heap : ℕ → CachedHandle) (d : Dict) (j : ℕ)
    → CachedHandle.sig ((evict cap heap d).0 j) ≡ CachedHandle.sig (heap j)
unfolding evict
sig-evict cap heap [] j = refl
sig-evict cap heap ((k, i) ∷ d) j = ground (arith, sig-evict cap (retire heap i) d j)

sig-register :
    (s : Handles) (key : String) (sig : Signature) (registers : Bool) (i : ℕ)
    → (register s key sig registers).0 ≡ done i
    → ((register s key sig registers).1.heap i).sig ≡ sig
unfolding register
sig-register s key sig false i h = absurd (cc)
sig-register s key sig true i h = sig-evict _ _ _ i ∙ ground arith

same_signature-eq : (a b : Signature) → same_signature a b ≡ true → a ≡ b
same_signature-eq a b h = ground arith

sig-acquire_entry :
    (s : Handles) (key : String) (sig : Signature) (registers : Bool) (i : ℕ) (o : Option ℕ)
    → (acquire_entry s key sig registers o).0 ≡ done i
    → ((acquire_entry s key sig registers o).1.heap i).sig ≡ sig
unfolding acquire_entry
sig-acquire_entry s key sig registers i none h = sig-register s key sig registers i h
sig-acquire_entry s key sig registers i (some j) h =
    elim (Bool-cases (same_signature (s.heap j).sig sig)) [
      | inl same ↦
          let e = same_signature-eq (s.heap j).sig sig same in
          let k = rw same at h in rw same (unfold hit in ground arith)
      | inr stale ↦ rw stale (sig-register (drop_stale s key j) key sig registers i (rw stale at h))
    ]

sig-acquire :
    (s : Handles) (key : String) (sig : Signature) (registers : Bool) (i : ℕ)
    → (acquire s key (some sig) registers).0 ≡ done i
    → ((acquire s key (some sig) registers).1.heap i).sig ≡ sig
unfolding acquire
sig-acquire s key sig registers i h = sig-acquire_entry s key sig registers i (get key s.cache) h

-- Each object's fd was opened on the file whose signature the object has.
abbrev IsOwn : (ℕ → CachedHandle) → Type 0
IsOwn heap = (j : ℕ) → (heap j).opened ≡ (heap j).sig

retire-IsOwn : (heap : ℕ → CachedHandle) (i : ℕ) → IsOwn heap → IsOwn (retire heap i)
retire-IsOwn heap i own j = let o = own j in let o' = own i in ground arith

evict-IsOwn :
    (cap : ℕ) (heap : ℕ → CachedHandle) (d : Dict) → IsOwn heap → IsOwn (evict cap heap d).0
unfolding evict
evict-IsOwn cap heap [] own = own
evict-IsOwn cap heap ((k, i) ∷ d) own = elim (Bool-cases (ltb cap (suc (length d)))) [
  | inl over ↦ rw over (evict-IsOwn cap (retire heap i) d (retire-IsOwn heap i own))
  | inr fits ↦ rw fits own
]

retire_all-IsOwn : (heap : ℕ → CachedHandle) (d : Dict) → IsOwn heap → IsOwn (retire_all heap d)
unfolding retire_all
retire_all-IsOwn heap [] own = own
retire_all-IsOwn heap ((k, i) ∷ d) own =
    retire_all-IsOwn (retire heap i) d (retire-IsOwn heap i own)

register-IsOwn :
    (s : Handles) (key : String) (sig : Signature) (registers : Bool)
    → IsOwn s.heap
    → IsOwn (register s key sig registers).1.heap
unfolding register
register-IsOwn s key sig false own = own
register-IsOwn s key sig true own =
    evict-IsOwn handle_cache_cap _ _ (λ j. let o = own j in ground arith)

acquire_entry-IsOwn :
    (s : Handles) (key : String) (sig : Signature) (registers : Bool) (o : Option ℕ)
    → IsOwn s.heap
    → IsOwn (acquire_entry s key sig registers o).1.heap
unfolding acquire_entry
acquire_entry-IsOwn s key sig registers none own = register-IsOwn s key sig registers own
acquire_entry-IsOwn s key sig registers (some i) own =
    elim (Bool-cases (same_signature (s.heap i).sig sig)) [
      | inl same ↦ rw same (λ j. let o = own j in let o' = own i in unfold hit in ground arith)
      | inr stale ↦ rw stale (
          register-IsOwn (drop_stale s key i) key sig registers
            (unfold drop_stale in retire-IsOwn s.heap i own))
    ]

acquire-IsOwn :
    (s : Handles) (key : String) (stat : Option Signature) (registers : Bool)
    → IsOwn s.heap
    → IsOwn (acquire s key stat registers).1.heap
unfolding acquire
acquire-IsOwn s key none registers own = own
acquire-IsOwn s key (some sig) registers own =
    acquire_entry-IsOwn s key sig registers (get key s.cache) own

Step-IsOwn :
    {s t : Handles} {held held' : List ℕ} → Step s held t held' → IsOwn s.heap → IsOwn t.heap
unfolding release clear
Step-IsOwn (acquiring s held key stat registers) own = acquire-IsOwn s key stat registers own
Step-IsOwn (releasing s held held' i holders) own =
    λ j. let o = own j in let o' = own i in ground arith
Step-IsOwn (clearing s held) own = retire_all-IsOwn s.heap s.cache own

Reach-IsOwn : {s : Handles} {held : List ℕ} → Reach s held → IsOwn s.heap
Reach-IsOwn start = λ j. refl
Reach-IsOwn (next r step) = Step-IsOwn step (Reach-IsOwn r)

-- In every state that the threads can reach, a handle that is returned for a path has an open fd, and
-- that fd was opened on a file with the signature that `os.stat` reports for the path in that call: once
-- the signature has changed, the fd of the old file is not handed out. The condition of the model: no
-- file is replaced between the `os.stat` and the `os.open` of one call.
pub opened-acquire :
    {s : Handles} {held : List ℕ} (key : String) (sig : Signature) (registers : Bool) (i : ℕ)
    → Reach s held
    → (acquire s key (some sig) registers).0 ≡ done i
    → (((acquire s key (some sig) registers).1.heap i).opened ≡ sig)
      × (((acquire s key (some sig) registers).1.heap i).is_open ≡ true)
opened-acquire {s} {held} key sig registers i r h =
    let t = (acquire s key (some sig) registers).1 in
    let later = next r (acquiring s held key (some sig) registers) in
    let held_once : 0 < count_held i (holding (acquire s key (some sig) registers).0 held) =
      rw h (ground arith) in
    (
      Reach-IsOwn later i ∙ sig-acquire s key sig registers i h,
      (Reach-open_iff i later).0.1 (inr held_once),
    )

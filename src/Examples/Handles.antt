-- ===== src/Examples/Handles.antt =====
-- The handle cache of src/czarr/cufile.py: two files, one of them rewritten while it is read.
use czarr.Prelude.{
  ◌≤◌, ◌<◌, ◌≡◌, refl, ◌↔◌, ◌⊎◌, true, false, some, none, raise, os_error, file_not_found, List, [],
  ◌∷◌, length, done,
}
use czarr.Handles.Paths.{count_value, count_key, get}
use czarr.Handles.{Handles, Signature, init, acquire, release}
use czarr.Handles.Core.{count_held}
use czarr.Handles.Safety.{Reach, start, next, acquiring, Reach-open_iff, Reach-cache}
use czarr.Handles.Batch.{Request, read_into_many, refs-read_into_many}
use czarr.Handles.Fresh.{opened-acquire}
use czarr.Plan.Ranges.{ReadRequest}
use czarr.Io.Device.{Answer, read_device}

abbrev old : Signature
old = (1, 10, 100)

abbrev new : Signature
new = (1, 11, 100)

abbrev first : Handles
first = (acquire init "a" (some old) true).1

-- The second acquisition finds "a" rewritten and opens it anew.
abbrev second : Handles
second = (acquire first "a" (some new) true).1

abbrev third : Handles
third = (acquire second "b" (some old) true).1

first-second : (acquire first "a" (some new) true).0 ≡ done 1
unfolding acquire get
first-second = refl

-- The handle of the old file stays open for its reader, and is closed when it lets go.
old_stays_open : ((second.heap 0).is_open ≡ true) × (((release second 0).heap 0).is_open ≡ false)
unfolding acquire release get
old_stays_open = (refl, refl)

second-Reach : Reach second (1 ∷ 0 ∷ [])
unfolding acquire get
second-Reach =
    next (next start (acquiring init [] "a" (some old) true))
      (acquiring first (0 ∷ []) "a" (some new) true)

first-Reach : Reach first (0 ∷ [])
unfolding acquire get
first-Reach = next start (acquiring init [] "a" (some old) true)

opened-acquire_example : ((second.heap 1).opened ≡ new) × ((second.heap 1).is_open ≡ true)
opened-acquire_example = opened-acquire "a" new true 1 first-Reach first-second

Reach-open_iff_example :
    (((second.heap 0).is_open ≡ true)
      ↔ ((0 < count_value 0 second.cache) ⊎ (0 < count_held 0 (1 ∷ 0 ∷ []))))
    × ((second.heap 0).refs ≡ count_held 0 (1 ∷ 0 ∷ []))
Reach-open_iff_example = Reach-open_iff 0 second-Reach

Reach-cache_example :
    (length second.cache ≤ 128)
    × (count_key "a" second.cache ≤ 1)
    × (count_value 1 second.cache ≤ 1)
    × (0 < count_value 1 second.cache → (second.heap 1).dead ≡ false)
Reach-cache_example = Reach-cache 1 "a" second-Reach

-- The first file is read, and the second is missing.
abbrev batch : List Request
batch =
    record { path = "a"; size = 4; stat = some new; registers = true; got = done 4 }
    ∷ record { path = "c"; size = 4; stat = none; registers = true; got = done 4 }
    ∷ []

batch_raises : (read_into_many (done tt) second batch).0 ≡ raise file_not_found
unfolding read_into_many acquire get
batch_raises = refl

refs-read_into_many_example :
    ((read_into_many (done tt) second batch).1.heap 1).refs ≡ (second.heap 1).refs
refs-read_into_many_example = refs-read_into_many (done tt) second (1 ∷ 0 ∷ []) batch 1 second-Reach

abbrev one_read : Request
one_read = record { path = "a"; size = 10; stat = some new; registers = true; got = done 10 }

-- A read through cuFile that gives 3 of 4 bytes.
abbrev short_read : List (ReadRequest × Answer)
short_read =
    (
      record { path = "a"; offset = 0; nbytes = 4; members = [] },
      record { stat = some new; registers = true; got = done 3 },
    )
    ∷ []

short_read_raises : (read_device (done tt) second short_read).0 ≡ raise os_error
unfolding read_device read_into_many acquire get
short_read_raises = refl

-- ===== src/Io/Exact.antt =====
-- `read` returns exactly the bytes that were asked for, or raises.
use czarr.Prelude.{
  ◌-◌, ◌≡◌, refl, ap, ◌∙◌, inl, inr, Bool, true, false, ◌&&◌, some, List, [], ◌∷◌, map, arith,
  length, length-take, length-drop, drop, min, slice, leb, ◌==◌, if◌then◌else◌, Bool-cases, Every,
  done, raise, os_error,
}
use czarr.Plan.ShardIndex.{Bytes, Files}
use czarr.Plan.Ranges.{ReadRequest}
use czarr.Io.{host_read_into, host_read_all, check_counts, read}

-- The bytes of a request in its file, and whether the file has all of them.
abbrev pub window_of : ReadRequest × Bytes → Bytes
window_of (r, content) = slice content r.offset r.nbytes

abbrev pub all_inside : List (ReadRequest × Bytes) → Bool
all_inside [] = true
all_inside ((r, content) ∷ rest) = leb r.nbytes (length content - r.offset) && all_inside rest

-- Each request's file has the content that stands beside it.
abbrev pub HasFiles : Files → List (ReadRequest × Bytes) → Type 0
HasFiles files pairs = Every (λ p. files p.0.path ≡ some p.1) pairs

host_read_all-eq :
    (files : Files) (pairs : List (ReadRequest × Bytes))
    → HasFiles files pairs
    → host_read_all files (map (λ p. p.0) pairs) ≡ done (map window_of pairs)
unfolding host_read_all host_read_into
host_read_all-eq files [] h = refl
host_read_all-eq files (p ∷ pairs) h = rw (h.0, host_read_all-eq files pairs h.1)

length-window_of :
    (p : ReadRequest × Bytes) → length (window_of p) ≡ min p.0.nbytes (length p.1 - p.0.offset)
length-window_of p =
    length-take p.0.nbytes (drop p.0.offset p.1) ∙ ap (min p.0.nbytes) (length-drop p.0.offset p.1)

check_counts-eq :
    (pairs : List (ReadRequest × Bytes)) (buffers : List Bytes)
    → check_counts (map (λ p. p.0) pairs) (map window_of pairs) buffers
      ≡ (if all_inside pairs then done buffers else raise os_error)
unfolding check_counts
check_counts-eq [] buffers = refl
check_counts-eq (p ∷ pairs) buffers =
    let counted = length-window_of p in
    elim (Bool-cases (leb p.0.nbytes (length p.1 - p.0.offset))) [
      | inl full ↦
          let same : (length (window_of p) == p.0.nbytes) ≡ true = ground arith in
          rw (same, full) (check_counts-eq pairs buffers)
      | inr short ↦
          let differ : (length (window_of p) == p.0.nbytes) ≡ false = ground arith in
          rw (differ, short)
    ]

-- Where every file is there, `read` returns the bytes of each request, in the order of the requests,
-- if every file has all of the bytes; otherwise it raises `OSError`.
pub read-eq :
    (files : Files) (pairs : List (ReadRequest × Bytes))
    → HasFiles files pairs
    → read files (map (λ p. p.0) pairs)
      ≡ (if all_inside pairs then done (map window_of pairs) else raise os_error)
unfolding read
read-eq files pairs h =
    rw (host_read_all-eq files pairs h) (check_counts-eq pairs (map window_of pairs))

-- ===== src/Coalesce/Payload.antt =====
-- Reading the windows and slicing the members out gives each request the bytes that a read of its
-- own would give, and the windows come in the order of their offsets.
use mathlib.Core.List.{map, map-append, Perm}
use mathlib.Core.List.Perm
use czarr.Prelude.{
  ℕ, ◌+◌, ◌≤◌, ◌≡◌, refl, ap, ap₂, ◌∙◌, List, [], ◌∷◌, ◌++◌, arith, Every, Every-append_right,
  Every-mono, slice, slice-slice,
}
use czarr.Coalesce.{ByteRange, Member, FusedRead, Indexed, enumerate_from, coalesce}
use czarr.Coalesce.Sorting.{Ascending, sort_by_key-perm, sort_by_key-Ascending}
use czarr.Coalesce.Spans.{span, spans, coalesce-spans}
use czarr.Coalesce.Windows.{Begins, IsTight, coalesce-IsTight}

module _ {ℓ} {A : Type ℓ} (file : List A) where
  -- `buffer[intra_offset : intra_offset + length]` for each member of a window that was read.
  abbrev pub slices : List A → List Member → List (ℕ × List A)
  slices buffer [] = []
  slices buffer ((i, intra, len) ∷ ms) = (i, slice buffer intra len) ∷ slices buffer ms

  -- One read for each window.
  abbrev pub read_windows : List FusedRead → List (ℕ × List A)
  read_windows [] = []
  read_windows (w ∷ ws) = slices (slice file w.offset w.length) w.members ++ read_windows ws

  -- One read for each request.
  abbrev pub read_request : Indexed → ℕ × List A
  read_request (r, i) = (i, slice file r.offset r.length)

  slices-spans :
      (o n : ℕ) (ms : List Member)
      → Every (λ m. m.1 + m.2 ≤ n) ms
      → slices (slice file o n) ms ≡ map read_request (map (span o) ms)
  slices-spans o n [] h = refl
  slices-spans o n (m ∷ ms) h =
      ap₂ ◌∷◌ (ap (λ b. (m.0, b)) (slice-slice file o n m.1 m.2 h.0)) (slices-spans o n ms h.1)

  read_windows-spans :
      (cap gap : ℕ) (ws : List FusedRead)
      → Every (IsTight cap gap) ws
      → read_windows ws ≡ map read_request (spans ws)
  read_windows-spans cap gap [] h = refl
  read_windows-spans cap gap (w ∷ ws) h =
      ap₂ ◌++◌ (slices-spans w.offset w.length w.members h.0.inside)
        (read_windows-spans cap gap ws h.1)
      ∙ rw map-append

  -- The fused reads deliver, up to order, exactly what one read for each request delivers: the
  -- index of the request beside its bytes, whatever the caps.
  pub read_windows-perm :
      (max_fused max_gap : ℕ) (ranges : List ByteRange)
      → Perm
          (read_windows (coalesce max_fused max_gap ranges))
          (map read_request (enumerate_from 0 ranges))
  read_windows-perm max_fused max_gap ranges =
      let e =
        read_windows-spans max_fused max_gap (coalesce max_fused max_gap ranges)
          (coalesce-IsTight max_fused max_gap ranges) in
      rw (e, coalesce-spans) (Perm.map read_request (sort_by_key-perm (enumerate_from 0 ranges)))

-- The offset of each window is at most those of the windows after it.
abbrev pub InOrder : List FusedRead → Type 0
InOrder [] = Unit
InOrder (w ∷ ws) = Every (λ v. w.offset ≤ v.offset) ws × InOrder ws

Ascending-append_right : (xs ys : List Indexed) → Ascending (xs ++ ys) → Ascending ys
Ascending-append_right [] ys h = h
Ascending-append_right (x ∷ xs) ys h = Ascending-append_right xs ys h.1

-- The first member stands where the window does.
head-le :
    (b o : ℕ) (ms : List Member) (rest : List Indexed)
    → Begins ms
    → Every (λ x. b ≤ x.0.offset) (map (span o) ms ++ rest)
    → b ≤ o
head-le b o [] rest begins h = absurd begins
head-le b o (m ∷ ms) rest begins h = let k = h.0 in omega arith

window-le-rest :
    (o : ℕ) (ms : List Member) (rest : List Indexed)
    → Begins ms
    → Ascending (map (span o) ms ++ rest)
    → Every (λ x. o ≤ x.0.offset) rest
window-le-rest o [] rest begins h = absurd begins
window-le-rest o (m ∷ ms) rest begins h =
    Every-mono (λ y k. omega arith) rest (Every-append_right _ (map (span o) ms) rest h.0)

-- A bound on the offsets of the spans is one on the offsets of the windows.
offsets-le :
    (cap gap b : ℕ) (ws : List FusedRead)
    → Every (IsTight cap gap) ws
    → Every (λ x. b ≤ x.0.offset) (spans ws)
    → Every (λ w. b ≤ w.offset) ws
offsets-le cap gap b [] t h = tt
offsets-le cap gap b (w ∷ ws) t h = (
  head-le b w.offset w.members (spans ws) t.0.begins h,
  offsets-le cap gap b ws t.1 (Every-append_right _ (map (span w.offset) w.members) (spans ws) h),
)

spans-InOrder :
    (cap gap : ℕ) (ws : List FusedRead)
    → Every (IsTight cap gap) ws
    → Ascending (spans ws)
    → InOrder ws
spans-InOrder cap gap [] t h = tt
spans-InOrder cap gap (w ∷ ws) t h = (
  offsets-le cap gap w.offset ws t.1 (window-le-rest w.offset w.members (spans ws) t.0.begins h),
  spans-InOrder cap gap ws t.1
      (Ascending-append_right (map (span w.offset) w.members) (spans ws) h),
)

-- The windows of `coalesce` are sorted by their offsets.
coalesce-InOrder :
    (max_fused max_gap : ℕ) (ranges : List ByteRange) → InOrder (coalesce max_fused max_gap ranges)
coalesce-InOrder max_fused max_gap ranges =
    spans-InOrder max_fused max_gap _ (coalesce-IsTight max_fused max_gap ranges)
      (rw coalesce-spans (sort_by_key-Ascending (enumerate_from 0 ranges)))

-- ===== src/Plan/Ranges/Windows.antt =====
-- The requests for the units of one shard: what `fuse_present` makes of them.
use mathlib.Core.List.{map, Perm}
use mathlib.Core.List.Perm
use czarr.Prelude.{
  ℕ, suc, ◌+◌, ◌≤◌, ◌<◌, ◌≡◌, refl, Every-append_left, Every-append_right, ap, ap₂, ◌∙◌, inl, inr,
  true, false, Option, none, some, List, [], ◌∷◌, ◌++◌, arith, get_elem?, get_elem?-lt, length,
  ◌==◌, if◌then◌else◌, Bool-cases, Every, Every-mono, done,
}
use czarr.Prelude.Text.{String}
use czarr.Prelude.Gather.{gather, gather-append}
use czarr.Prelude.Int.{pos}
use czarr.Coalesce.{
  ByteRange, Member, FusedRead, Indexed, enumerate_from, coalesce, coalesce_ranges,
}
use czarr.Coalesce.Spans.{span, spans, coalesce-spans}
use czarr.Coalesce.Windows.{IsTight, coalesce-IsTight}
use czarr.Coalesce.Sorting.{gather-sort_by_key, Every-sort_by_key}
use czarr.Coalesce.Uniform.{HasBytes, IsUniform, coalesce-IsUniform}
use czarr.Plan.Ranges.{
  ReadRequest, Present, byte_ranges, name_first, name_members, window_requests, fuse_present,
}

-- A unit with the file, the offset in it and the number of the unit's bytes.
abbrev pub Located : Type 0
Located = List ℕ × String × ℕ × ℕ

-- Where in its file a request has each of its units.
abbrev pub request_members : ReadRequest → List Located
request_members q = map (λ m. (m.0, q.path, q.offset + m.1, m.2)) q.members

abbrev pub all_members : List ReadRequest → List Located
all_members = gather request_members

-- A unit of a shard in the shard's file, unless it has no bytes.
abbrev pub in_file : String → List ℕ × ByteRange → List Located
in_file path (coords, r) = if r.length == 0 then [] else (coords, path, r.offset, r.length) ∷ []

unit_of : Option (List ℕ × ByteRange) → List ℕ
unit_of none = []
unit_of (some p) = p.0

abbrev pick : String → Present → Indexed → List Located
pick path present (r, i) = in_file path (unit_of (get_elem? present i), r)

module _ (path : String) (present : Present) where
  name_members-eq :
      (offset : ℕ) (ms : List Member)
      → HasBytes ms
      → Every (λ x. x.1 < length present) (map (span offset) ms)
      → (named : List (List ℕ × ℕ × ℕ)) × (name_members present ms ≡ done named)
        × (map (λ m. (m.0, path, offset + m.1, m.2)) named
            ≡ gather (pick path present) (map (span offset) ms))
  unfolding name_members name_first unit_of
  name_members-eq offset [] h k = ([], refl, refl)
  name_members-eq offset ((i, intra, len) ∷ ms) h k =
      let (named, e, e') = name_members-eq offset ms h.1 k.1 in
      let (p, found) = get_elem?-lt present i k.0 in
      let some_bytes : (len == 0) ≡ false = (let k = h.0 in ground arith) in
      (
        (p.0, intra, len) ∷ named,
        rw (name_members, name_first, found, e),
        rw (unit_of, found, some_bytes, e'),
      )

  empty_window :
      (offset : ℕ) (ms : List Member)
      → Every (λ m. m.1 + m.2 ≤ 0) ms
      → gather (pick path present) (map (span offset) ms) ≡ []
  empty_window offset [] h = refl
  empty_window offset (m ∷ ms) h =
      let e : (m.2 == 0) ≡ true = (let k = h.0 in ground arith) in
      rw (e, empty_window offset ms h.1)

  window_requests-eq :
      (cap gap : ℕ) (ws : List FusedRead)
      → Every (IsTight cap gap) ws
      → Every IsUniform ws
      → Every (λ x. x.1 < length present) (spans ws)
      → (out : List ReadRequest) × (window_requests path present ws ≡ done out)
        × (all_members out ≡ gather (pick path present) (spans ws))
  unfolding window_requests
  window_requests-eq cap gap [] t u k = ([], refl, refl)
  window_requests-eq cap gap (w ∷ ws) t u k =
      let behind = Every-append_right _ (map (span w.offset) w.members) (spans ws) k in
      let (out, e, e') = window_requests-eq cap gap ws t.1 u.1 behind in
      elim (Bool-cases (w.length == 0)) [
        | inl empty ↦
            let none_in : Every (λ m. m.1 + m.2 ≤ 0) w.members =
              Every-mono (λ m le. ground arith) w.members t.0.inside in
            (out, rw (empty, e), rw (gather-append, empty_window w.offset w.members none_in, e'))
        | inr full ↦
            let (named, n, n') =
              name_members-eq w.offset w.members (u.0 (ground arith))
                (Every-append_left _ (map (span w.offset) w.members) (spans ws) k) in
            (
              record { path = path; offset = w.offset; nbytes = w.length; members = named } ∷ out,
              rw (full, n, e),
              rw (gather-append, e') (ap (λ l. l ++ gather (pick path present) (spans ws)) n'),
            )
      ]

gather-enumerate_from :
    (path : String) (present : Present) (i : ℕ) (ps : Present)
    → ((j : ℕ) → get_elem? present (i + j) ≡ get_elem? ps j)
    → gather (pick path present) (enumerate_from i (byte_ranges ps)) ≡ gather (in_file path) ps
unfolding enumerate_from unit_of
gather-enumerate_from path present i [] h = refl
gather-enumerate_from path present i (p ∷ ps) h =
    let at : (j : ℕ) (k : ℕ) → k ≡ i + j → get_elem? present k ≡ get_elem? (p ∷ ps) j =
      λ j k e. ap (get_elem? present) e ∙ h j in
    let here = at 0 i (omega arith) in
    let later : (j : ℕ) → get_elem? present (suc i + j) ≡ get_elem? ps j =
      λ j. at (suc j) (suc i + j) (omega arith) in
    ap₂ ◌++◌ (ap (λ o. in_file path (unit_of o, p.1)) here)
      (gather-enumerate_from path present (suc i) ps later)

enumerate_from-in_range :
    (n i : ℕ) (ps : Present)
    → i + length ps ≤ n
    → Every (λ x. x.1 < n) (enumerate_from i (byte_ranges ps))
unfolding enumerate_from
enumerate_from-in_range n i [] h = tt
enumerate_from-in_range n i (p ∷ ps) h =
    (omega arith, enumerate_from-in_range n (suc i) ps (omega arith))

-- With a positive cap the units of a shard are read, each at its place in the shard's file; a unit
-- without bytes is left out.
pub fuse_present-perm :
    (path : String) (max_fused max_gap : ℕ) (present : Present)
    → (out : List ReadRequest) × (fuse_present path (pos (suc max_fused)) (pos max_gap) present
        ≡ done out)
      × Perm (all_members out) (gather (in_file path) present)
unfolding fuse_present coalesce_ranges
fuse_present-perm path max_fused max_gap [] = ([], refl, Perm.rfl)
fuse_present-perm path max_fused max_gap (p ∷ ps) =
    let rs = byte_ranges (p ∷ ps) in
    let in_range =
      Every-sort_by_key (λ x. x.1 < length (p ∷ ps)) (enumerate_from 0 rs)
        (enumerate_from-in_range (length (p ∷ ps)) 0 (p ∷ ps) (omega arith)) in
    let (out, e, e') =
      window_requests-eq path (p ∷ ps) (suc max_fused) max_gap (coalesce (suc max_fused) max_gap rs)
        (coalesce-IsTight (suc max_fused) max_gap rs)
        (coalesce-IsUniform (suc max_fused) max_gap rs) (rw coalesce-spans in_range) in
    (
      out,
      e,
      rw (e', coalesce-spans)
          (Perm.trans (gather-sort_by_key (pick path (p ∷ ps)) (enumerate_from 0 rs)) (
            rw
              (gather-enumerate_from path (p ∷ ps) 0 (p ∷ ps)
                (λ j. ap (get_elem? (p ∷ ps)) (omega arith)))
              Perm.rfl)),
    )

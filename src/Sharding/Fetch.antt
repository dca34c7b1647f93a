-- ===== src/Sharding/Fetch.antt =====
-- What the coalesced fetch puts in the dictionary: for each chunk what a read of its own gives.
use mathlib.Core.List.{map, Perm, append-nil}
use mathlib.Core.List.Perm
use czarr.Prelude.{
  ℕ, suc, ◌+◌, ◌-◌, ◌≤◌, ◌<◌, ◌≡◌, refl, sym, Every-append_left, Every-append_right, ap, ap₂, ◌∙◌,
  inl, inr, true, false, Option, none, some, List, [], ◌∷◌, ◌++◌, arith, get_elem?, get_elem?-lt,
  length, ltb, slice, slice-slice, ◌==◌, if◌then◌else◌, Bool-cases, Every, Every-mono, done,
}
use czarr.Prelude.Gather.{gather, gather-append}
use czarr.Prelude.Int.{pos}
use czarr.Coalesce.{
  ByteRange, Member, FusedRead, Indexed, enumerate_from, coalesce, coalesce_ranges,
}
use czarr.Coalesce.Spans.{span, spans, coalesce-spans}
use czarr.Coalesce.Windows.{IsTight, coalesce-IsTight}
use czarr.Coalesce.Sorting.{gather-sort_by_key, Every-sort_by_key}
use czarr.Coalesce.Uniform.{HasBytes, IsUniform, coalesce-IsUniform}
use czarr.Sharding.{
  Bytes, Coords, ShardIndex, Getter, Located, locate, coords_with_slices, chunk_range, nonempty,
  get_windows, realign, Assigned, assign_members, assign_window, assign_windows, fetch_located,
  coalesced_chunk_fetch,
}

-- A range of the shard under a chunk's coordinates, unless it has no bytes.
abbrev pub own_range : Bytes → Coords → ByteRange → Assigned
own_range content c r = if r.length == 0 then [] else (c, slice content r.offset r.length) ∷ []

coords_of : Option Located → Coords
coords_of none = []
coords_of (some x) = x.0

abbrev pick : Bytes → List Located → Indexed → Assigned
pick content located (r, i) = own_range content (coords_of (get_elem? located i)) r

module _ (content : Bytes) (located : List Located) where
  assign_members-eq :
      (offset size : ℕ) (ms : List Member)
      → HasBytes ms
      → Every (λ m. m.1 + m.2 ≤ size) ms
      → Every (λ x. x.1 < length located) (map (span offset) ms)
      → assign_members located (slice content offset size) ms
        ≡ done (gather (pick content located) (map (span offset) ms))
  unfolding assign_members coords_of
  assign_members-eq offset size [] h t k = refl
  assign_members-eq offset size ((i, intra, len) ∷ ms) h t k =
      let rest = assign_members-eq offset size ms h.1 t.1 k.1 in
      let (x, found) = get_elem?-lt located i k.0 in
      let some_bytes : (len == 0) ≡ false = (let k = h.0 in ground arith) in
      rw (found, rest, some_bytes)
        (ap (λ b. done ((x.0, b) ∷ gather (pick content located) (map (span offset) ms)))
          (slice-slice content offset size intra len t.0))

  -- What the gather brings for a window.
  abbrev served : FusedRead → Option Bytes
  served w = if ltb 0 w.length then some (slice content w.offset w.length) else none

  empty_window :
      (offset : ℕ) (ms : List Member)
      → Every (λ m. m.1 + m.2 ≤ 0) ms
      → gather (pick content located) (map (span offset) ms) ≡ []
  empty_window offset [] h = refl
  empty_window offset (m ∷ ms) h =
      let e : (m.2 == 0) ≡ true = (let k = h.0 in ground arith) in
      rw (e, empty_window offset ms h.1)

  assign_window-eq :
      (cap gap : ℕ) (w : FusedRead)
      → IsTight cap gap w
      → IsUniform w
      → Every (λ x. x.1 < length located) (map (span w.offset) w.members)
      → assign_window located (served w) w
        ≡ done (gather (pick content located) (map (span w.offset) w.members))
  assign_window-eq cap gap w t u k = elim (Bool-cases (ltb 0 w.length)) [
    | inl full ↦
        rw full (assign_members-eq w.offset w.length w.members (u (ground arith)) t.inside k)
    | inr empty ↦
        let none_in : Every (λ m. m.1 + m.2 ≤ 0) w.members =
          Every-mono (λ m le. ground arith) w.members t.inside in
        rw (empty, empty_window w.offset w.members none_in) refl
  ]

  assign_windows-eq :
      (cap gap : ℕ) (ws : List FusedRead)
      → Every (IsTight cap gap) ws
      → Every IsUniform ws
      → Every (λ x. x.1 < length located) (spans ws)
      → assign_windows located (map served ws) ws ≡ done (gather (pick content located) (spans ws))
  unfolding assign_windows
  assign_windows-eq cap gap [] t u k = refl
  assign_windows-eq cap gap (w ∷ ws) t u k =
      let here =
        assign_window-eq cap gap w t.0 u.0
          (Every-append_left _ (map (span w.offset) w.members) (spans ws) k) in
      let behind = Every-append_right _ (map (span w.offset) w.members) (spans ws) k in
      rw (here, assign_windows-eq cap gap ws t.1 u.1 behind, gather-append) refl

  module _ (get : Getter)
      (reads : (o e : ℕ) → o ≤ e → get o e ≡ done (some (slice content o (e - o)))) where
    abbrev whole : FusedRead → Option Bytes
    whole w = some (slice content w.offset w.length)

    get_windows-eq : (ws : List FusedRead) → get_windows get ws ≡ done (map whole ws)
    unfolding get_windows
    get_windows-eq [] = refl
    get_windows-eq (w ∷ ws) =
        let size : w.offset + w.length - w.offset ≡ w.length = omega arith in
        rw (reads w.offset (w.offset + w.length) (omega arith), size, get_windows-eq ws) refl

  realign-eq :
      (ws : List FusedRead)
      → realign ws (map (λ w. some (slice content w.offset w.length)) (nonempty ws))
        ≡ done (map served ws)
  unfolding realign nonempty
  realign-eq [] = refl
  realign-eq (w ∷ ws) = elim (Bool-cases (ltb 0 w.length)) [
    | inl full ↦ rw (full, realign-eq ws) refl
    | inr empty ↦ rw (empty, realign-eq ws) refl
  ]

gather-enumerate_from :
    (content : Bytes) (located : List Located) (i : ℕ) (xs : List Located)
    → ((j : ℕ) → get_elem? located (i + j) ≡ get_elem? xs j)
    → gather (pick content located) (enumerate_from i (map chunk_range xs))
      ≡ gather (λ x. own_range content x.0 (chunk_range x)) xs
unfolding enumerate_from coords_of
gather-enumerate_from content located i [] h = refl
gather-enumerate_from content located i (x ∷ xs) h =
    let at : (j : ℕ) (k : ℕ) → k ≡ i + j → get_elem? located k ≡ get_elem? (x ∷ xs) j =
      λ j k e. ap (get_elem? located) e ∙ h j in
    let here = at 0 i (omega arith) in
    let later : (j : ℕ) → get_elem? located (suc i + j) ≡ get_elem? xs j =
      λ j. at (suc j) (suc i + j) (omega arith) in
    ap₂ ◌++◌ (ap (λ o. own_range content (coords_of o) (chunk_range x)) here)
      (gather-enumerate_from content located (suc i) xs later)

enumerate_from-in_range :
    (n i : ℕ) (xs : List Located)
    → i + length xs ≤ n
    → Every (λ x. x.1 < n) (enumerate_from i (map chunk_range xs))
unfolding enumerate_from
enumerate_from-in_range n i [] h = tt
enumerate_from-in_range n i (x ∷ xs) h =
    (omega arith, enumerate_from-in_range n (suc i) xs (omega arith))

-- What a read of its own gives for a chunk.
abbrev pub own_read : Bytes → Coords → Option (ℕ × ℕ) → Assigned
own_read content c none = []
own_read content c (some (a, b)) = if b - a == 0 then [] else (c, slice content a (b - a)) ∷ []

gather-coords_with_slices :
    (content : Bytes) (index : ShardIndex) (coords : List Coords)
    → gather (λ x. own_range content x.0 (chunk_range x)) (coords_with_slices index coords)
      ≡ gather (λ c. own_read content c (index.chunk_slice c)) coords
unfolding coords_with_slices
gather-coords_with_slices content index [] = refl
gather-coords_with_slices content index (c ∷ coords) =
    gather-append _ (locate c (index.chunk_slice c)) (coords_with_slices index coords)
    ∙ ap₂ ◌++◌ (own (index.chunk_slice c)) (gather-coords_with_slices content index coords)
  where
    own :
        (o : Option (ℕ × ℕ))
        → gather (λ x. own_range content x.0 (chunk_range x)) (locate c o) ≡ own_read content c o
    own none = refl
    own (some (a, b)) = append-nil _

fetch_located-perm :
    (content : Bytes) (get : Getter) (max_fused max_gap : ℕ) (located : List Located)
    → ((o e : ℕ) → o ≤ e → get o e ≡ done (some (slice content o (e - o))))
    → (out : Assigned) × (fetch_located get (pos (suc max_fused)) (pos max_gap) located ≡ done out)
      × Perm out (gather (λ x. own_range content x.0 (chunk_range x)) located)
unfolding coalesce_ranges
fetch_located-perm content get max_fused max_gap [] reads = ([], refl, Perm.rfl)
fetch_located-perm content get max_fused max_gap (x ∷ xs) reads =
    let located = x ∷ xs in
    let rs = map chunk_range located in
    let ws = coalesce (suc max_fused) max_gap rs in
    let in_range =
      Every-sort_by_key (λ y. y.1 < length located) (enumerate_from 0 rs)
        (enumerate_from-in_range (length located) 0 located (omega arith)) in
    let assigned =
      assign_windows-eq content located (suc max_fused) max_gap ws
        (coalesce-IsTight (suc max_fused) max_gap rs)
        (coalesce-IsUniform (suc max_fused) max_gap rs) (rw coalesce-spans in_range) in
    (
      gather (pick content located) (spans ws),
      rw (get_windows-eq content located get reads (nonempty ws), realign-eq content located ws)
          assigned,
      rw coalesce-spans (
          Perm.trans (gather-sort_by_key (pick content located) (enumerate_from 0 rs)) (
            rw
              (gather-enumerate_from content located 0 located
                (λ j. ap (get_elem? located) (omega arith)))
              Perm.rfl)),
    )

-- With a positive cap and a store that serves the bytes of the shard, the fetch returns, and it assigns
-- to each requested chunk, once for each time that it is requested, the bytes that a read of its own
-- would give; a chunk that the index does not have, or that has no bytes, is left out.
pub coalesced_chunk_fetch-perm :
    (content : Bytes) (get : Getter) (index : ShardIndex) (max_fused max_gap : ℕ)
    (coords : List Coords)
    → ((o e : ℕ) → o ≤ e → get o e ≡ done (some (slice content o (e - o))))
    → (out : Assigned) × (coalesced_chunk_fetch get index (pos (suc max_fused)) (pos max_gap) coords
        ≡ done out)
      × Perm out (gather (λ c. own_read content c (index.chunk_slice c)) coords)
unfolding coalesced_chunk_fetch
coalesced_chunk_fetch-perm content get index max_fused max_gap coords reads =
    let (out, e, p) =
      fetch_located-perm content get max_fused max_gap (coords_with_slices index coords) reads in
    (out, e, rw (sym (gather-coords_with_slices content index coords)) p)

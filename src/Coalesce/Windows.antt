-- ===== src/Coalesce/Windows.antt =====
-- What every window of the result satisfies: its members lie inside it, the first one at its start,
-- it is within the cap unless it holds one request, and it reads little that nobody asked for.
use mathlib.Core.Path.{subst}
use czarr.Prelude.{
  ℕ, ◌+◌, ◌-◌, ◌≤◌, ◌<◌, max, ◌≡◌, refl, ◌⊎◌, inl, inr, true, List, [], ◌∷◌, ◌++◌, arith, ltb, leb,
  ◌==◌, Bool-cases, ltb→lt, length, Every, Every-append, Every-mono,
}
use czarr.Coalesce.{
  ByteRange, Member, FusedRead, Indexed, end, enumerate_from, sort_by_key, Fusing, start, window,
  emit, pass_through, open_window, fits, extend, fuse_one, fuse_all, coalesce,
}
use czarr.Coalesce.Sorting.{Ascending, sort_by_key-Ascending}
use czarr.Coalesce.Spans.{Behind, fuse_one-Behind, start-Behind}

-- The first member begins with the window.
abbrev pub Begins : List Member → Type 0
Begins [] = ⊥
Begins (m ∷ ms) = m.1 ≡ 0

-- Byte b of the window lies in a member, or fewer than `gap` bytes behind its end.
abbrev pub Near : ℕ → ℕ → List Member → Type 0
Near gap b [] = ⊥
Near gap b (m ∷ ms) = ((m.1 ≤ b) × (b < m.1 + m.2 + gap)) ⊎ Near gap b ms

-- Some member ends at e.
abbrev Reaches : ℕ → List Member → Type 0
Reaches e [] = ⊥
Reaches e (m ∷ ms) = (m.1 + m.2 ≡ e) ⊎ Reaches e ms

pub record IsTight (cap gap : ℕ) (w : FusedRead) : Type 0 where
  pub inside : Every (λ m. m.1 + m.2 ≤ w.length) w.members
  pub begins : Begins w.members
  pub capped : (w.length ≤ cap) ⊎ (length w.members ≡ 1)
  pub near : (b : ℕ) → b < w.length → Near gap b w.members

record IsOpen (cap gap : ℕ) (s : Fusing) : Type 0 where
  tight : IsTight cap gap (window s)
  ordered : s.cur_offset ≤ s.cur_end
  reaches : Reaches (s.cur_end - s.cur_offset) s.cur_members

record IsFusing (cap gap : ℕ) (s : Fusing) : Type 0 where
  done : Every (IsTight cap gap) s.fused
  current : s.cur_open ≡ true → IsOpen cap gap s

Near-append :
    (gap b : ℕ) (ms ns : List Member) → Near gap b ms ⊎ Near gap b ns → Near gap b (ms ++ ns)
Near-append gap b [] ns (inl h) = absurd h
Near-append gap b [] ns (inr h) = h
Near-append gap b (m ∷ ms) ns (inl (inl h)) = inl h
Near-append gap b (m ∷ ms) ns (inl (inr h)) = inr (Near-append gap b ms ns (inl h))
Near-append gap b (m ∷ ms) ns (inr h) = inr (Near-append gap b ms ns (inr h))

Reaches-append : (e : ℕ) (ms ns : List Member) → Reaches e ms ⊎ Reaches e ns → Reaches e (ms ++ ns)
Reaches-append e [] ns (inl h) = absurd h
Reaches-append e [] ns (inr h) = h
Reaches-append e (m ∷ ms) ns (inl (inl h)) = inl h
Reaches-append e (m ∷ ms) ns (inl (inr h)) = inr (Reaches-append e ms ns (inl h))
Reaches-append e (m ∷ ms) ns (inr h) = inr (Reaches-append e ms ns (inr h))

-- What lies fewer than `gap` bytes behind the furthest end is near a member, if all begin before it.
Near-Reaches : (gap e b : ℕ) (ms : List Member) → Reaches e ms → e ≤ b → b < e + gap → Near gap b ms
Near-Reaches gap e b [] h le lt = h
Near-Reaches gap e b (m ∷ ms) (inl h) le lt = inl (omega arith, omega arith)
Near-Reaches gap e b (m ∷ ms) (inr h) le lt = inr (Near-Reaches gap e b ms h le lt)

Begins-append : (ms ns : List Member) → Begins ms → Begins (ms ++ ns)
Begins-append [] ns h = absurd h
Begins-append (m ∷ ms) ns h = h

-- A window of one request.
single-IsTight :
    (cap gap o l i : ℕ)
    → IsTight cap gap (record { offset = o; length = l; members = (i, 0, l) ∷ [] })
single-IsTight cap gap o l i = record {
  inside = (omega arith, tt);
  begins = refl;
  capped = inr refl;
  near = λ b h. inl (omega arith, omega arith);
}

emit-IsTight :
    (cap gap : ℕ) (s : Fusing) → IsFusing cap gap s → Every (IsTight cap gap) (emit s).fused
unfolding emit
emit-IsTight cap gap s h = elim (Bool-cases s.cur_open) [
  | inl e ↦ simp e (Every-append (IsTight cap gap) s.fused _ h.done ((h.current e).tight, tt))
  | inr e ↦ simp e h.done
]

-- A window that passes through leaves none open.
pass_through-IsFusing :
    (cap gap : ℕ) (s : Fusing) (w : FusedRead)
    → IsFusing cap gap s
    → IsTight cap gap w
    → IsFusing cap gap (pass_through s w)
unfolding pass_through
pass_through-IsFusing cap gap s w h t = record {
  done = Every-append (IsTight cap gap) (emit s).fused _ (emit-IsTight cap gap s h) (t, tt);
  current = λ e. cc;
}

open_window-IsFusing :
    (cap gap : ℕ) (s : Fusing) (x : Indexed)
    → Every (IsTight cap gap) s.fused
    → IsFusing cap gap (open_window s x)
unfolding open_window
open_window-IsFusing cap gap s x h = record {
  done = h;
  current = λ _. record {
    tight =
        let e : x.0.offset + x.0.length - x.0.offset ≡ x.0.length = omega arith in
        rw e (single-IsTight cap gap x.0.offset x.0.length x.1);
    ordered = omega arith;
    reaches = inl (omega arith);
  };
}

module _ (cap gap : ℕ) (s : Fusing) (x : Indexed) (o : IsOpen cap gap s)
    (behind : s.cur_offset ≤ x.0.offset) (near_by : x.0.offset ≤ s.cur_end + gap)
    (within : max s.cur_end (end x.0) - s.cur_offset ≤ cap) where
  extend-inside :
      Every
        (λ m. m.1 + m.2 ≤ max s.cur_end (end x.0) - s.cur_offset)
        (s.cur_members ++ (x.1, x.0.offset - s.cur_offset, x.0.length) ∷ [])
  extend-inside =
      let grow : (m : Member)
          → m.1 + m.2 ≤ s.cur_end - s.cur_offset
          → m.1 + m.2 ≤ max s.cur_end (end x.0) - s.cur_offset =
        λ m h. omega arith in
      Every-append _ s.cur_members _ (Every-mono grow s.cur_members o.tight.inside)
        (omega arith, tt)

  extend-Near :
      (b : ℕ)
      → b < max s.cur_end (end x.0) - s.cur_offset
      → Near gap b (s.cur_members ++ (x.1, x.0.offset - s.cur_offset, x.0.length) ∷ [])
  extend-Near b h =
      Near-append gap b s.cur_members _ (elim (Bool-cases (ltb b (s.cur_end - s.cur_offset))) [
        | inl old ↦ inl (o.tight.near b (ltb→lt _ _ old))
        | inr new ↦ elim (Bool-cases (leb (x.0.offset - s.cur_offset) b)) [
          | inl own ↦ inr (inl (ground arith))
          | inr gap_ ↦
              inl (Near-Reaches gap _ b s.cur_members o.reaches (ground arith) (ground arith))
        ]
      ])

  extend-Reaches :
      Reaches
        (max s.cur_end (end x.0) - s.cur_offset)
        (s.cur_members ++ (x.1, x.0.offset - s.cur_offset, x.0.length) ∷ [])
  extend-Reaches = Reaches-append _ s.cur_members _ (elim (Bool-cases (leb s.cur_end (end x.0))) [
    | inl longer ↦ inr (inl (ground arith))
    | inr shorter ↦
        let e : s.cur_end - s.cur_offset ≡ max s.cur_end (end x.0) - s.cur_offset = ground arith in
        inl (subst (λ n. Reaches n s.cur_members) e o.reaches)
  ])

  extend-IsOpen : IsOpen cap gap (extend s x)
  unfolding extend
  extend-IsOpen = record {
    tight = record {
      inside = extend-inside;
      begins = Begins-append s.cur_members _ o.tight.begins;
      capped = inl within;
      near = extend-Near;
    };
    ordered = let h = o.ordered in omega arith;
    reaches = extend-Reaches;
  }

fits→near :
    (cap gap : ℕ) (s : Fusing) (r : ByteRange)
    → fits cap gap s r ≡ true
    → r.offset ≤ s.cur_end + gap
unfolding fits
fits→near cap gap s r h = ground arith

fits→within :
    (cap gap : ℕ) (s : Fusing) (r : ByteRange)
    → fits cap gap s r ≡ true
    → max s.cur_end (end r) - s.cur_offset ≤ cap
unfolding fits
fits→within cap gap s r h = ground arith

extend-IsFusing :
    (cap gap : ℕ) (s : Fusing) (x : Indexed)
    → IsFusing cap gap s
    → s.cur_open ≡ true
    → s.cur_offset ≤ x.0.offset
    → fits cap gap s x.0 ≡ true
    → IsFusing cap gap (extend s x)
extend-IsFusing cap gap s x h open_ behind fitting = record {
  done = unfold extend in h.done;
  current = λ _.
      extend-IsOpen cap gap s x (h.current open_) behind (fits→near cap gap s x.0 fitting)
        (fits→within cap gap s x.0 fitting);
}

fuse_one-IsFusing :
    (cap gap : ℕ) (s : Fusing) (x : Indexed)
    → IsFusing cap gap s
    → Behind x.0.offset s
    → IsFusing cap gap (fuse_one cap gap s x)
unfolding fuse_one
fuse_one-IsFusing cap gap s x h behind = elim (Bool-cases (x.0.length == 0)) [
  | inl empty ↦ rw empty (pass_through-IsFusing cap gap s _ h (single-IsTight cap gap _ 0 _))
  | inr e ↦ rw e (elim (Bool-cases (ltb cap x.0.length)) [
    | inl large ↦ rw large (pass_through-IsFusing cap gap s _ h (single-IsTight cap gap _ _ _))
    | inr small ↦ rw small (elim (Bool-cases s.cur_open) [
      | inr closed ↦ simp closed (open_window-IsFusing cap gap s x h.done)
      | inl open_ ↦ simp open_ (elim (Bool-cases (fits cap gap s x.0)) [
        | inl fitting ↦ rw fitting (extend-IsFusing cap gap s x h open_ (behind open_) fitting)
        | inr over ↦ rw over (open_window-IsFusing cap gap (emit s) x (emit-IsTight cap gap s h))
      ])
    ])
  ])
]

fuse_all-IsFusing :
    (cap gap : ℕ) (s : Fusing) (xs : List Indexed)
    → Every (λ x. Behind x.0.offset s) xs
    → Ascending xs
    → IsFusing cap gap s
    → IsFusing cap gap (fuse_all cap gap s xs)
unfolding fuse_all
fuse_all-IsFusing cap gap s [] behind a h = h
fuse_all-IsFusing cap gap s (x ∷ xs) behind a h =
    fuse_all-IsFusing cap gap (fuse_one cap gap s x) xs
      (Every-mono (λ y le. fuse_one-Behind cap gap y.0.offset s x behind.0 le) xs a.0) a.1
      (fuse_one-IsFusing cap gap s x h behind.0)

-- Every window: its members lie inside it and the first one at its start, it is at most `max_fused`
-- bytes long or holds one request, and each of its bytes is in a member or fewer than `max_gap`
-- bytes behind one.
pub coalesce-IsTight :
    (max_fused max_gap : ℕ) (ranges : List ByteRange)
    → Every (IsTight max_fused max_gap) (coalesce max_fused max_gap ranges)
unfolding coalesce
coalesce-IsTight max_fused max_gap ranges =
    let xs = sort_by_key (enumerate_from 0 ranges) in
    emit-IsTight max_fused max_gap _ (
      fuse_all-IsFusing max_fused max_gap start xs (start-Behind xs)
        (sort_by_key-Ascending (enumerate_from 0 ranges)) (record { done = tt; current = λ e. cc }))

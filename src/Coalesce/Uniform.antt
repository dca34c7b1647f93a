-- ===== src/Coalesce/Uniform.antt =====
-- A window of the result has no bytes, or each of its members has some.
use czarr.Prelude.{
  ℕ, ◌<◌, ◌≡◌, inl, inr, true, List, [], ◌∷◌, arith, ltb, ◌==◌, Bool-cases, Every, Every-append,
}
use czarr.Coalesce.{
  ByteRange, Member, FusedRead, Indexed, sort_by_key, enumerate_from, Fusing, start, emit,
  pass_through, open_window, fits, extend, fuse_one, fuse_all, coalesce,
}

abbrev pub HasBytes : List Member → Type 0
HasBytes ms = Every (λ m. 0 < m.2) ms

-- `IsTight` has the other half: the members of a window without bytes have none.
abbrev pub IsUniform : FusedRead → Type 0
IsUniform w = 0 < w.length → HasBytes w.members

record AllUniform (s : Fusing) : Type 0 where
  fused : Every IsUniform s.fused
  current : s.cur_open ≡ true → HasBytes s.cur_members

emit-IsUniform : (s : Fusing) → AllUniform s → Every IsUniform (emit s).fused
unfolding emit
emit-IsUniform s h = elim (Bool-cases s.cur_open) [
  | inl e ↦ simp e (Every-append IsUniform s.fused _ h.fused ((λ _. h.current e), tt))
  | inr e ↦ simp e h.fused
]

pass_through-AllUniform :
    (s : Fusing) (w : FusedRead) → AllUniform s → IsUniform w → AllUniform (pass_through s w)
unfolding pass_through
pass_through-AllUniform s w h u = record {
  fused = Every-append IsUniform (emit s).fused _ (emit-IsUniform s h) (u, tt);
  current = λ e. cc;
}

open_window-AllUniform :
    (s : Fusing) (x : Indexed)
    → Every IsUniform s.fused
    → 0 < x.0.length
    → AllUniform (open_window s x)
unfolding open_window
open_window-AllUniform s x h positive = record { fused = h; current = λ _. (positive, tt) }

extend-AllUniform :
    (s : Fusing) (x : Indexed)
    → AllUniform s
    → s.cur_open ≡ true
    → 0 < x.0.length
    → AllUniform (extend s x)
unfolding extend
extend-AllUniform s x h open_ positive = record {
  fused = h.fused;
  current = λ _. Every-append (λ m. 0 < m.2) s.cur_members _ (h.current open_) (positive, tt);
}

fuse_one-AllUniform :
    (cap gap : ℕ) (s : Fusing) (x : Indexed) → AllUniform s → AllUniform (fuse_one cap gap s x)
unfolding fuse_one
fuse_one-AllUniform cap gap s x h = elim (Bool-cases (x.0.length == 0)) [
  | inl empty ↦ rw empty (pass_through-AllUniform s _ h (λ lt. absurd (omega arith)))
  | inr e ↦
      let positive : 0 < x.0.length = ground arith in
      rw e (elim (Bool-cases (ltb cap x.0.length)) [
        | inl large ↦ rw large (pass_through-AllUniform s _ h (λ lt. (lt, tt)))
        | inr small ↦ rw small (elim (Bool-cases s.cur_open) [
          | inr closed ↦ simp closed (open_window-AllUniform s x h.fused positive)
          | inl open_ ↦ simp open_ (elim (Bool-cases (fits cap gap s x.0)) [
            | inl fitting ↦ rw fitting (extend-AllUniform s x h open_ positive)
            | inr over ↦ rw over (open_window-AllUniform (emit s) x (emit-IsUniform s h) positive)
          ])
        ])
      ])
]

fuse_all-AllUniform :
    (cap gap : ℕ) (s : Fusing) (xs : List Indexed)
    → AllUniform s
    → AllUniform (fuse_all cap gap s xs)
unfolding fuse_all
fuse_all-AllUniform cap gap s [] h = h
fuse_all-AllUniform cap gap s (x ∷ xs) h =
    fuse_all-AllUniform cap gap (fuse_one cap gap s x) xs (fuse_one-AllUniform cap gap s x h)

pub coalesce-IsUniform :
    (max_fused max_gap : ℕ) (ranges : List ByteRange)
    → Every IsUniform (coalesce max_fused max_gap ranges)
unfolding coalesce
coalesce-IsUniform max_fused max_gap ranges = emit-IsUniform _ (
    fuse_all-AllUniform max_fused max_gap start (sort_by_key (enumerate_from 0 ranges))
      (record { fused = tt; current = λ e. cc }))

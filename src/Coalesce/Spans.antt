-- ===== src/Coalesce/Spans.antt =====
-- Which requests a list of windows stands for: each member as the range of the file that it spans.
use mathlib.Core.List.{map, map-append, append-nil, append_assoc, Perm}
use czarr.Prelude.{
  ℕ, suc, ◌+◌, ◌-◌, ◌≤◌, ◌≡◌, refl, sym, ap, ◌∙◌, true, false, inl, inr, List, [], ◌∷◌, ◌++◌, arith,
  ltb, ◌==◌, ==_iff, Bool-cases, Every, Every-mono, done,
}
use czarr.Prelude.Int.{pos}
use czarr.Coalesce.{
  ByteRange, Member, FusedRead, Indexed, enumerate_from, sort_by_key, Fusing, start, emit,
  pass_through, open_window, fits, extend, fuse_one, fuse_all, coalesce, coalesce_ranges,
}
use czarr.Coalesce.Sorting.{Ascending, sort_by_key-perm, sort_by_key-Ascending}

-- The range of the file behind a member of a window at `offset`, with the member's index.
abbrev pub span : ℕ → Member → Indexed
span offset (orig_index, intra, length) =
    (record { offset = offset + intra; length = length }, orig_index)

abbrev pub spans : List FusedRead → List Indexed
spans [] = []
spans (w ∷ ws) = map (span w.offset) w.members ++ spans ws

spans-append : (ws vs : List FusedRead) → spans (ws ++ vs) ≡ spans ws ++ spans vs
spans-append [] vs = refl
spans-append (w ∷ ws) vs = rw (spans-append ws vs, append_assoc)

-- What the windows that are out and the open one stand for.
all_spans : Fusing → List Indexed
all_spans s = spans (emit s).fused

-- An open window begins no later than the offsets to come.
abbrev pub Behind : ℕ → Fusing → Type 0
Behind b s = s.cur_open ≡ true → s.cur_offset ≤ b

pass_through-spans :
    (s : Fusing) (w : FusedRead) → all_spans (pass_through s w) ≡ all_spans s ++ spans (w ∷ [])
unfolding all_spans pass_through emit
pass_through-spans s w = spans-append (emit s).fused (w ∷ [])

Indexed-eq :
    (o l : ℕ) (x : Indexed)
    → o ≡ x.0.offset
    → l ≡ x.0.length
    → (record { offset = o; length = l }, x.1) ∷ [] ≡ x ∷ []
Indexed-eq o l x p q = λ i. (record { offset = p i; length = q i }, x.1) ∷ []

open_window-spans :
    (s : Fusing) (x : Indexed) → all_spans (open_window s x) ≡ spans s.fused ++ x ∷ []
unfolding all_spans open_window emit
open_window-spans s x =
    spans-append s.fused _ ∙ ap (λ l. spans s.fused ++ l) (Indexed-eq _ _ x (omega arith) refl)

open_window-emit-spans :
    (s : Fusing) (x : Indexed) → all_spans (open_window (emit s) x) ≡ all_spans s ++ x ∷ []
unfolding all_spans
open_window-emit-spans s x = open_window-spans (emit s) x

open_window-closed-spans :
    (s : Fusing) (x : Indexed)
    → s.cur_open ≡ false
    → all_spans (open_window s x) ≡ all_spans s ++ x ∷ []
unfolding all_spans emit
open_window-closed-spans s x closed = simp closed (open_window-spans s x)

extend-spans :
    (s : Fusing) (x : Indexed)
    → s.cur_open ≡ true
    → s.cur_offset ≤ x.0.offset
    → all_spans (extend s x) ≡ all_spans s ++ x ∷ []
unfolding all_spans extend emit
extend-spans s x open_ behind =
    let e : s.cur_offset + (x.0.offset - s.cur_offset) ≡ x.0.offset = omega arith in
    rw open_ (simp (spans-append, map-append, append_assoc, append-nil, e))

-- Each round adds its request, whichever way it goes.
fuse_one-spans :
    (max_fused max_gap : ℕ) (s : Fusing) (x : Indexed)
    → Behind x.0.offset s
    → all_spans (fuse_one max_fused max_gap s x) ≡ all_spans s ++ x ∷ []
unfolding fuse_one
fuse_one-spans max_fused max_gap s x behind = elim (Bool-cases (x.0.length == 0)) [
  | inl empty ↦ rw empty (
      pass_through-spans s _
      ∙ ap (λ l. all_spans s ++ l) (Indexed-eq _ 0 x (omega arith) (sym ((==_iff _ _).0 empty))))
  | inr e ↦ rw e (elim (Bool-cases (ltb max_fused x.0.length)) [
    | inl large ↦
        rw large (
          pass_through-spans s _ ∙ ap (λ l. all_spans s ++ l) (Indexed-eq _ _ x (omega arith) refl))
    | inr small ↦ rw small (elim (Bool-cases s.cur_open) [
      | inr closed ↦ simp closed (open_window-closed-spans s x closed)
      | inl open_ ↦ simp open_ (elim (Bool-cases (fits max_fused max_gap s x.0)) [
        | inl fitting ↦ rw fitting (extend-spans s x open_ (behind open_))
        | inr over ↦ rw over (open_window-emit-spans s x)
      ])
    ])
  ])
]

pub fuse_one-Behind :
    (max_fused max_gap b : ℕ) (s : Fusing) (x : Indexed)
    → Behind x.0.offset s
    → x.0.offset ≤ b
    → Behind b (fuse_one max_fused max_gap s x)
unfolding fuse_one pass_through open_window extend emit
fuse_one-Behind max_fused max_gap b s x behind h = ground arith

fuse_all-spans :
    (max_fused max_gap : ℕ) (s : Fusing) (xs : List Indexed)
    → Every (λ x. Behind x.0.offset s) xs
    → Ascending xs
    → all_spans (fuse_all max_fused max_gap s xs) ≡ all_spans s ++ xs
unfolding fuse_all
fuse_all-spans max_fused max_gap s [] behind h = sym (append-nil _)
fuse_all-spans max_fused max_gap s (x ∷ xs) behind h =
    let s' = fuse_one max_fused max_gap s x in
    fuse_all-spans max_fused max_gap s' xs
      (Every-mono (λ y le. fuse_one-Behind max_fused max_gap y.0.offset s x behind.0 le) xs h.0) h.1
    ∙ ap (λ l. l ++ xs) (fuse_one-spans max_fused max_gap s x behind.0)
    ∙ append_assoc (all_spans s) (x ∷ []) xs

pub start-Behind : (xs : List Indexed) → Every (λ x. Behind x.0.offset start) xs
start-Behind [] = tt
start-Behind (x ∷ xs) = ((λ e. cc), start-Behind xs)

pub coalesce-spans :
    (max_fused max_gap : ℕ) (ranges : List ByteRange)
    → spans (coalesce max_fused max_gap ranges) ≡ sort_by_key (enumerate_from 0 ranges)
unfolding coalesce all_spans emit
coalesce-spans max_fused max_gap ranges =
    let xs = sort_by_key (enumerate_from 0 ranges) in
    fuse_all-spans max_fused max_gap start xs (start-Behind xs)
      (sort_by_key-Ascending (enumerate_from 0 ranges))

-- For a positive cap `coalesce_ranges` returns, and the members of its windows, each as the
-- range of the file that it stands for, are the requests with their indices, each exactly once.
pub coalesce_ranges-perm :
    (ranges : List ByteRange) (max_fused max_gap : ℕ)
    → (out : List FusedRead) × (coalesce_ranges ranges (pos (suc max_fused)) (pos max_gap)
        ≡ done out)
      × Perm (spans out) (enumerate_from 0 ranges)
unfolding coalesce_ranges
coalesce_ranges-perm ranges max_fused max_gap = (
  coalesce (suc max_fused) max_gap ranges,
  refl,
  rw coalesce-spans (sort_by_key-perm (enumerate_from 0 ranges)),
)

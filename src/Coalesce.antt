-- ===== src/Coalesce.antt =====
-- src/czarr/lowlevel/coalesce.py: `ByteRange`, `FusedRead` and `coalesce_ranges`, which sorts the
-- requests and fuses them greedily. The loop's variables are the record `Fusing`.
pub mod Payload
pub mod Sorting
pub mod Spans
pub mod Uniform
pub mod Windows
use czarr.Prelude.{
  ℕ, zero, suc, ◌+◌, ◌-◌, max, Bool, true, false, not, ◌&&◌, ◌||◌, List, [], ◌∷◌, ◌++◌, ltb, leb,
  ◌==◌, if◌then◌else◌, Outcome, done, raise, value_error,
}
use czarr.Prelude.Int.{ℤ, pos, negsuc}

-- A closed-open range of bytes.
pub record ByteRange : Type 0 where
  pub offset : ℕ
  pub length : ℕ

-- `ByteRange.end`
abbrev pub end : ByteRange → ℕ
end r = r.offset + r.length

-- (orig_index, intra_offset, length)
abbrev pub Member : Type 0
Member = ℕ × ℕ × ℕ

pub record FusedRead : Type 0 where
  pub offset : ℕ
  pub length : ℕ
  pub members : List Member

-- A request with its index in the input.
abbrev pub Indexed : Type 0
Indexed = ByteRange × ℕ

-- `((r, i) for i, r in enumerate(ranges))`, from `i` on
unfoldable pub enumerate_from : ℕ → List ByteRange → List Indexed
enumerate_from i [] = []
enumerate_from i (r ∷ rs) = (r, i) ∷ enumerate_from (suc i) rs

-- The order of the keys `(pair[0].offset, pair[1])`.
unfoldable pub key_leb : Indexed → Indexed → Bool
key_leb a b = ltb a.0.offset b.0.offset || (a.0.offset == b.0.offset && leb a.1 b.1)

insert_by_key : Indexed → List Indexed → List Indexed
insert_by_key x [] = x ∷ []
insert_by_key x (y ∷ ys) = if key_leb x y then x ∷ y ∷ ys else y ∷ insert_by_key x ys

-- Python's `sorted` with that key.
unfoldable pub sort_by_key : List Indexed → List Indexed
unfolding insert_by_key key_leb
sort_by_key [] = []
sort_by_key (x ∷ xs) = insert_by_key x (sort_by_key xs)

pub record Fusing : Type 0 where
  pub fused : List FusedRead
  pub cur_offset : ℕ
  pub cur_end : ℕ
  pub cur_members : List Member
  pub cur_open : Bool

abbrev pub start : Fusing
start = record { fused = []; cur_offset = 0; cur_end = 0; cur_members = []; cur_open = false }

-- The window that is open, as `_emit` appends it.
abbrev pub window : Fusing → FusedRead
window s = record {
  offset = s.cur_offset;
  length = s.cur_end - s.cur_offset;
  members = s.cur_members;
}

-- `_emit`
emit : Fusing → Fusing
emit s = if s.cur_open then record s { fused = s.fused ++ window s ∷ [] } else s

-- A request that becomes a window of its own: flush, append, and leave no window open.
pass_through : Fusing → FusedRead → Fusing
pass_through s w = record (emit s) {
  fused = (emit s).fused ++ w ∷ [];
  cur_members = [];
  cur_open = false;
}

-- A new window that holds one request.
open_window : Fusing → Indexed → Fusing
open_window s (r, orig_idx) = record s {
  cur_offset = r.offset;
  cur_end = end r;
  cur_members = (orig_idx, 0, r.length) ∷ [];
  cur_open = true;
}

-- `ok_gap and ok_cap`: `gap <= 0` is `r.offset <= cur_end`.
fits : ℕ → ℕ → Fusing → ByteRange → Bool
fits max_fused max_gap s r =
    (leb r.offset s.cur_end || leb (r.offset - s.cur_end) max_gap)
    && leb (max s.cur_end (end r) - s.cur_offset) max_fused

-- The request joins the open window.
extend : Fusing → Indexed → Fusing
extend s (r, orig_idx) = record s {
  cur_end = max s.cur_end (end r);
  cur_members = s.cur_members ++ (orig_idx, r.offset - s.cur_offset, r.length) ∷ [];
}

-- One round of the loop.
pub fuse_one : ℕ → ℕ → Fusing → Indexed → Fusing
fuse_one max_fused max_gap s (r, orig_idx) =
    if r.length == 0
    then pass_through s (record { offset = r.offset; length = 0; members = (orig_idx, 0, 0) ∷ [] })
    else if ltb max_fused r.length
    then pass_through s
        (record { offset = r.offset; length = r.length; members = (orig_idx, 0, r.length) ∷ [] })
    else if not s.cur_open
    then open_window s (r, orig_idx)
    else if fits max_fused max_gap s r
    then extend s (r, orig_idx)
    else open_window (emit s) (r, orig_idx)

fuse_all : ℕ → ℕ → Fusing → List Indexed → Fusing
fuse_all max_fused max_gap s [] = s
fuse_all max_fused max_gap s (x ∷ xs) =
    fuse_all max_fused max_gap (fuse_one max_fused max_gap s x) xs

-- The body of `coalesce_ranges` behind its two checks.
unfoldable pub coalesce : ℕ → ℕ → List ByteRange → List FusedRead
unfolding emit pass_through open_window fits extend fuse_one fuse_all sort_by_key enumerate_from
coalesce max_fused max_gap ranges =
    (emit (fuse_all max_fused max_gap start (sort_by_key (enumerate_from 0 ranges)))).fused

-- `coalesce_ranges(ranges, max_fused_bytes=, max_gap_bytes=)`
unfoldable pub coalesce_ranges : List ByteRange → ℤ → ℤ → Outcome (List FusedRead)
coalesce_ranges ranges (negsuc _) max_gap = raise value_error
coalesce_ranges ranges (pos zero) max_gap = raise value_error
coalesce_ranges ranges (pos (suc n)) (negsuc _) = raise value_error
coalesce_ranges ranges (pos (suc n)) (pos max_gap) = done (coalesce (suc n) max_gap ranges)

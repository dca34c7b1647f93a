-- ===== src/Blosc.antt =====
-- src/czarr/lowlevel/blosc.py: `_parse_header`, which reads the header of a blosc chunk and the table of
-- its blocks. A chunk is the list of its bytes.
use czarr.Prelude.{
  ℕ, zero, suc, ◌+◌, ◌-◌, ◌*◌, ◌/◌, ◌%◌, ◌^◌, ltb, ◌==◌, if◌then◌else◌, List, [], ◌∷◌, length, take,
  drop, Outcome, done, raise, ◌>>=◌, index_error, value_error, not_implemented, zero_division,
  struct_error,
}
use czarr.Prelude.Int.{ℤ, pos, negsuc, neg, ◌+ℤ◌, floor_div}

-- `shuffle` of `_Layout`
pub data Shuffle : Type 0 where
  bit byte none : Shuffle

pub record Layout : Type 0 where
  pub nbytes : ℤ
  pub blocksize : ℤ
  pub nblocks : ℤ
  pub typesize : ℕ
  pub shuffle : Shuffle
  pub bstarts : List ℤ

abbrev blosc_header : ℕ
blosc_header = 16

abbrev codec_zstd : ℕ
codec_zstd = 4

-- The integer of a 32-bit word in two's complement.
abbrev signed : ℕ → ℤ
signed w = if ltb w (2 ^ 31) then pos w else negsuc (2 ^ 32 - 1 - w)

-- `<i4` of four bytes
abbrev int32 : ℕ → ℕ → ℕ → ℕ → ℤ
int32 a b c d = signed (a + 256 * b + 65536 * c + 16777216 * d)

-- a * 4
abbrev times_four : ℤ → ℤ
times_four (pos n) = pos (4 * n)
times_four (negsuc n) = negsuc (4 * n + 3)

-- a // b, which raises where b is 0
abbrev floor_divide : ℤ → ℤ → Outcome ℤ
floor_divide a (pos zero) = raise zero_division
floor_divide a (pos (suc b)) = done (floor_div a (suc b))
floor_divide a (negsuc b) = done (floor_div (neg a) (suc b))

-- `xs[start:stop]`, where a negative stop counts from the end
abbrev slice : ℕ → ℤ → List ℕ → List ℕ
slice start (pos stop) xs = drop start (take stop xs)
slice start (negsuc n) xs = drop start (take (length xs - suc n) xs)

-- `.view("<i4")`, which raises where the size is not a multiple of 4
unfoldable view_int32 : List ℕ → Outcome (List ℤ)
view_int32 [] = done []
view_int32 (a ∷ b ∷ c ∷ d ∷ bytes) = do starts ← view_int32 bytes; done (int32 a b c d ∷ starts)
view_int32 _ = raise value_error

abbrev shuffle_of : ℕ → Shuffle
shuffle_of flags = if flags / 4 % 2 == 1 then bit else if flags % 2 == 1 then byte else none

-- The rest of `_parse_header`, once the header is unpacked.
unfoldable layout_of : ℕ → ℕ → ℤ → ℤ → List ℕ → Outcome Layout
unfolding view_int32
layout_of flags typesize nbytes blocksize comp =
    if flags / 32 == codec_zstd
    then (if flags / 2 % 2 == 1 then raise not_implemented else do
      quotient ← floor_divide (neg nbytes) blocksize
      bstarts ← view_int32 (slice blosc_header (times_four (neg quotient) +ℤ blosc_header) comp)
      done (record {
        nbytes = nbytes;
        blocksize = blocksize;
        nblocks = neg quotient;
        typesize = typesize;
        shuffle = shuffle_of flags;
        bstarts = bstarts;
      }))
    else raise not_implemented

-- `struct.unpack_from("<iii", hdr, 4)` and what follows, for the bytes after the fourth
abbrev unpack : ℕ → ℕ → List ℕ → List ℕ → Outcome Layout
unpack flags typesize (n0 ∷ n1 ∷ n2 ∷ n3 ∷ b0 ∷ b1 ∷ b2 ∷ b3 ∷ _ ∷ _ ∷ _ ∷ _ ∷ _) comp =
    layout_of flags typesize (int32 n0 n1 n2 n3) (int32 b0 b1 b2 b3) comp
unpack flags typesize _ comp = raise struct_error

-- `_parse_header`
unfoldable pub parse_header : List ℕ → Outcome Layout
unfolding layout_of
parse_header (version ∷ format ∷ flags ∷ typesize ∷ header) =
    unpack flags typesize header (version ∷ format ∷ flags ∷ typesize ∷ header)
parse_header _ = raise index_error

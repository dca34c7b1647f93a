-- ===== src/Examples/Blosc.antt =====
-- Headers of blosc chunks for `_parse_header` of src/czarr/lowlevel/blosc.py.
use czarr.Prelude.{
  ℕ, ◌≡◌, refl, List, [], ◌∷◌, ◌++◌, done, raise, not_implemented, zero_division, struct_error,
  value_error,
}
use czarr.Prelude.Int.{pos, negsuc}
use czarr.Blosc.{bit, parse_header}

-- A chunk of 10 bytes in blocks of 8, bitshuffled, whose flags and block size are given.
abbrev header : ℕ → ℕ → List ℕ
header flags blocksize =
    2 ∷ 1 ∷ flags ∷ 2 ∷ 10 ∷ 0 ∷ 0 ∷ 0 ∷ blocksize ∷ 0 ∷ 0 ∷ 0 ∷ 40 ∷ 0 ∷ 0 ∷ 0 ∷ []

two_blocks :
    parse_header (header 132 8 ++ 24 ∷ 0 ∷ 0 ∷ 0 ∷ 255 ∷ 255 ∷ 255 ∷ 255 ∷ 9 ∷ [])
    ≡ done (record {
      nbytes = pos 10;
      blocksize = pos 8;
      nblocks = pos 2;
      typesize = 2;
      shuffle = bit;
      bstarts = pos 24 ∷ negsuc 0 ∷ [];
    })
unfolding parse_header
two_blocks = refl

-- A table cut inside an entry does not read; one cut between two entries does.
cut_table : parse_header (header 132 8 ++ 24 ∷ 0 ∷ []) ≡ raise value_error
unfolding parse_header
cut_table = refl

empty_blocks : parse_header (header 132 0) ≡ raise zero_division
unfolding parse_header
empty_blocks = refl

other_codec : parse_header (header 100 8) ≡ raise not_implemented
unfolding parse_header
other_codec = refl

stored : parse_header (header 130 8) ≡ raise not_implemented
unfolding parse_header
stored = refl

short_header : parse_header (2 ∷ 1 ∷ 132 ∷ 2 ∷ 10 ∷ []) ≡ raise struct_error
unfolding parse_header
short_header = refl

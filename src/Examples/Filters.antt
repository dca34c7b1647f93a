-- ===== src/Examples/Filters.antt =====
-- The filters on small chunks.
use czarr.Prelude.{
  ℕ, ◌≡◌, refl, inl, inr, true, false, some, List, [], ◌∷◌, map, get_elem?, ◌==◌, ==_iff, arith,
  done, raise, index_error, type_error,
}
use czarr.Prelude.Int.{pos}
use czarr.Filters.{IntDtype, convert, sub_word, sums, CupyInts, CudaCompute}
use czarr.Filters.Delta.{Delta, ScannerCache, key_of, delta_encode, delta_decode}
use czarr.Filters.Delta.RoundTrip.{IsMade, delta_decode-agree, delta_decode-delta_encode}
use czarr.Prelude.Text.{String, eq_iff}
use czarr.Filters.FixedScaleOffset.{
  decode_op, AffineArrays, FixedScaleOffset, decoding, TransformCache, fso_decode, fso_encode,
}
use czarr.Filters.FixedScaleOffset.Kernels.{fso_native}
use czarr.Filters.FixedScaleOffset.Kernels
use czarr.Filters.BitRound.{float16, other, bitround_even, bitround_encode}
use czarr.Filters.BitRound.Multiples.{IsNearest}
use czarr.Filters.BitRound.Nearest.{bitround_encode-IsNearest, bitround_even_carry}

abbrev int16 : IntDtype
int16 = record { bits = 16; signed = true }

abbrev int8 : IntDtype
int8 = record { bits = 8; signed = true }

abbrev differences : IntDtype → List ℕ → List ℕ
differences d [] = []
differences d (x ∷ []) = []
differences d (x ∷ y ∷ ys) = sub_word d y x ∷ differences d (y ∷ ys)

abbrev host : CupyInts
host = record {
  astype = λ d e xs. map (convert d e) xs;
  diff = differences;
  cumsum = λ d e xs. sums e 0 (map (convert d e) xs);
  astype-convert = λ d e xs. refl;
  diff-one = λ d x. refl;
  diff-cons = λ d x y ys. refl;
  cumsum-sums = λ d e xs. refl;
}

abbrev scans : CudaCompute
scans = record {
  Scanner = IntDtype;
  available = true;
  make_inclusive_scan = λ d n e. d;
  scan = sums;
  scan-make = λ d init xs. refl;
}

-- 100, 90, 110 with differences in 8 bits.
abbrev delta : Delta
delta = record { dtype = int16; astype = some int8; cccl = false }

delta_narrow :
    delta_encode host scans delta int16 (100 ∷ 90 ∷ 110 ∷ []) ≡ done (100 ∷ 246 ∷ 20 ∷ [])
unfolding delta_encode
delta_narrow = refl

delta_empty : delta_encode host scans delta int16 [] ≡ raise index_error
unfolding delta_encode
delta_empty = refl

delta_lossy : delta_decode host scans [] delta int8 (44 ∷ []) ≡ done ([], 44 ∷ [])
unfolding delta_decode
delta_lossy = refl

delta_decode-delta_encode_example :
    (encoded : List ℕ) × (delta_encode host scans delta int16 (100 ∷ 90 ∷ 110 ∷ []) ≡ done encoded)
    × (delta_decode host scans [] delta int8 encoded ≡ done ([], 100 ∷ 90 ∷ 110 ∷ []))
delta_decode-delta_encode_example =
    delta_decode-delta_encode host scans [] int16 (some int8) 100 (90 ∷ 110 ∷ []) (omega arith)
      (omega arith, (omega arith, (omega arith, tt)))
      (
        refl,
        refl,
        omega arith,
        omega arith,
        (
          record { word = omega arith; range = inl (omega arith) },
          (
            record { word = omega arith; range = inr (omega arith) },
            (record { word = omega arith; range = inl (omega arith) }, tt),
          ),
        ),
      )

delta_decode-agree_example :
    (cache : ScannerCache scans) × (out : List ℕ) × IsMade scans cache
    × (delta_decode host scans
          ((key_of scans int16 3 int16, int16) ∷ [])
          (record { dtype = int16; astype = some int8; cccl = true })
          int8
          (100 ∷ 246 ∷ 20 ∷ [])
        ≡ done (cache, out))
    × (delta_decode host scans
          ((key_of scans int16 3 int16, int16) ∷ [])
          delta
          int8
          (100 ∷ 246 ∷ 20 ∷ [])
        ≡ done ((key_of scans int16 3 int16, int16) ∷ [], out))
delta_decode-agree_example =
    delta_decode-agree host scans ((key_of scans int16 3 int16, int16) ∷ []) int16 (some int8) int8
      (100 ∷ 246 ∷ 20 ∷ []) refl (refl, tt) (omega arith)
      (omega arith, (omega arith, (omega arith, tt)))

-- A tie goes to the even neighbour; the sign bit rides along.
bitround_ties :
    bitround_encode float16 (pos 8) (0x3c02 ∷ 0x3c06 ∷ 0xbc07 ∷ [])
    ≡ done (0x3c00 ∷ 0x3c08 ∷ 0xbc08 ∷ [])
unfolding bitround_encode bitround_even
bitround_ties = refl

bitround_kept : bitround_encode float16 (pos 10) (0x3c03 ∷ []) ≡ done (0x3c03 ∷ [])
unfolding bitround_encode
bitround_kept = refl

bitround_other : bitround_encode other (pos 8) (3 ∷ []) ≡ raise type_error
unfolding bitround_encode
bitround_other = refl

bitround_encode-IsNearest_example :
    (out : List ℕ) × (y : ℕ) × (bitround_encode float16 (pos 8) (0x3c02 ∷ 0x3c06 ∷ []) ≡ done out)
    × (get_elem? out 1 ≡ some y)
    × IsNearest 4 0x3c06 y
bitround_encode-IsNearest_example =
    bitround_encode-IsNearest float16 8 1 (0x3c02 ∷ 0x3c06 ∷ []) 1 0x3c06 refl refl (omega arith)

-- The negative NaN of float32 whose mantissa is all ones becomes +0.0.
bitround_even_carry_example : bitround_even 32 11 0xffff_ffff ≡ 0
bitround_even_carry_example =
    bitround_even_carry 32 10 0xffff_ffff (omega arith) (omega arith) (omega arith)

-- Arrays of a dtype's number and one element, with strings for the scalars.
abbrev affine : AffineArrays
affine = record {
  Dtype = ℕ;
  Scalar = String;
  Arr = ℕ × ℕ;
  Transformer = ℕ;
  same_dtype = λ d e. d == e;
  is_integer = λ d. d == 1;
  itemsize = λ d. 4;
  hex = λ s. s;
  dtype = λ x. x.0;
  size = λ x. 1;
  astype = λ x d. (d, x.1);
  div = λ x s. x;
  add = λ x s. x;
  sub = λ x s. x;
  mul = λ x s. x;
  around = λ x. x;
  available = true;
  make_unary_transform = λ d e op. e;
  transform = λ t op x. (t, x.1);
  same_dtype-eq = λ d e h. (==_iff d e).0 h;
  hex-eq = λ s t h. (eq_iff s t).0 h;
}

abbrev quantise : FixedScaleOffset affine
quantise = record {
  offset = "0x0p+0";
  scale = "0x1p+3";
  decoded_dtype = 0;
  stored_as = some 1;
  cccl = true;
}

abbrev kernels : TransformCache affine
kernels =
    (
      record {
        kind = decoding;
        in_dtype = 0;
        out_dtype = 0;
        scale_hex = "0x1p+1";
        offset_hex = "0x0p+0";
      },
      0,
      decode_op "0x1p+1" "0x0p+0",
    )
    ∷ []

fso_native_example :
    ((cache : TransformCache affine) × Kernels.IsMade affine cache
      × (fso_decode affine kernels quantise (1, 7) ≡ done (cache, (0, 7))))
    × ((cache : TransformCache affine) × Kernels.IsMade affine cache
        × (fso_encode affine kernels quantise (1, 7) ≡ done (cache, (1, 7))))
fso_native_example =
    fso_native affine kernels quantise (1, 7) refl refl
      (("0x1p+1", "0x0p+0", refl, refl, refl, refl), tt)

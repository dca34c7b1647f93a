-- ===== src/Filters/BitRound.antt =====
-- src/czarr/codecs/filters/bitround.py: the rounding of mantissas, on bit patterns.
pub mod Multiples
pub mod Nearest
use czarr.Prelude.{
  ℕ, zero, suc, ◌+◌, ◌-◌, ◌*◌, ◌/◌, ◌%◌, ◌^◌, ◌≤◌, ◌<◌, ◌≡◌, refl, sym, Bool, true, false, ◌&&◌,
  ◌||◌, not, Option, none, some, List, map, ltb, ◌==◌, if◌then◌else◌, Outcome, done, raise,
  type_error,
}
use czarr.Prelude.Int.{ℤ, pos, negsuc, sub_ℕ}

-- The dtypes: the floats of the table, and the others.
pub data Dtype : Type 0 where
  float16 float32 float64 other : Dtype

-- `_MANTISSA_BITS`
abbrev pub mantissa_bits : Dtype → Option ℕ
mantissa_bits float16 = some 10
mantissa_bits float32 = some 23
mantissa_bits float64 = some 52
mantissa_bits other = none

-- The width of `_INT_VIEW[x.dtype.itemsize]`. The table is read for floats only.
abbrev pub int_view : Dtype → ℕ
int_view float16 = 16
int_view float32 = 32
int_view float64 = 64
int_view other = 0

-- `_BITROUND_EVEN_KERNEL` on one element of w bits. The mask is a power of two less one, so that
-- `bits & low_mask` is a remainder.
unfoldable pub bitround_kernel : ℕ → ℕ → ℕ → ℕ → ℕ → ℕ → ℕ
bitround_kernel w bits shift half low_mask lsb_step =
    let low = bits % suc low_mask in
    let lsb = bits / 2 ^ shift % 2 in
    let round_up = ltb half low || ((low == half) && not (lsb == 0)) in
    let truncated = bits - low in (truncated + (if round_up then lsb_step else 0)) % 2 ^ w

-- The kernel's scalars, each an integer of w bits: `one << (shift_t - one)`, `(one << shift_t) - one`
-- and `one << shift_t`. Shifting by w or more leaves 0.
abbrev pub half_of : ℕ → ℕ → ℕ
half_of w shift = 2 ^ (shift - 1) % 2 ^ w

abbrev pub lsb_step_of : ℕ → ℕ → ℕ
lsb_step_of w shift = 2 ^ shift % 2 ^ w

abbrev pub low_mask_of : ℕ → ℕ → ℕ
low_mask_of w shift = (lsb_step_of w shift + 2 ^ w - 1) % 2 ^ w

-- `_bitround_even`, whose kernel runs on each element
unfoldable pub bitround_even : ℕ → ℕ → ℕ → ℕ
unfolding bitround_kernel
bitround_even w shift bits =
    bitround_kernel w bits shift (half_of w shift) (low_mask_of w shift) (lsb_step_of w shift)

-- mantissa - keepbits
abbrev pub shift_of : ℕ → ℤ → ℤ
shift_of mantissa (pos keepbits) = sub_ℕ mantissa keepbits
shift_of mantissa (negsuc keepbits) = pos (mantissa + suc keepbits)

-- The rest of `_encode_single`, where `shift` is known: the chunk is kept for `shift <= 0`.
abbrev pub round_by : ℕ → ℤ → List ℕ → List ℕ
round_by w (pos zero) bits = bits
round_by w (pos (suc shift)) bits = map (bitround_even w (suc shift)) bits
round_by w (negsuc shift) bits = bits

abbrev pub round_mantissa : Dtype → ℤ → Option ℕ → List ℕ → Outcome (List ℕ)
round_mantissa dtype keepbits none bits = raise type_error
round_mantissa dtype keepbits (some mantissa) bits =
    done (round_by (int_view dtype) (shift_of mantissa keepbits) bits)

-- `BitRound._encode_single`
unfoldable pub bitround_encode : Dtype → ℤ → List ℕ → Outcome (List ℕ)
bitround_encode dtype keepbits bits = round_mantissa dtype keepbits (mantissa_bits dtype) bits

-- `BitRound._decode_single`: the elements stay as they are.
abbrev pub bitround_decode : List ℕ → List ℕ
bitround_decode bits = bits

-- ===== src/Filters/BitRound/Nearest.antt =====
-- `_bitround_even` and `BitRound._encode_single` of src/czarr/codecs/filters/bitround.py against
-- rounding to the nearest multiple, ties to the even one.
use czarr.Prelude.{
  ℕ, zero, suc, ◌+◌, ◌-◌, ◌*◌, ◌/◌, ◌%◌, ◌^◌, ◌≤◌, ◌<◌, ◌≡◌, refl, sym, leb, get_elem?, true, some,
  List, [], ◌∷◌, map, done, arith,
}
use czarr.Prelude.Int.{pos}
use czarr.Filters.BitRound.{
  Dtype, float16, float32, float64, other, mantissa_bits, int_view, bitround_kernel, bitround_even,
  bitround_encode,
}
use native.Mathlib.Nat.{mod-eq_of_lt, mod_self, lt_of_le_of_lt}
use czarr.Kernels.Bits.{radix-mod}
use czarr.Filters.BitRound.Multiples.{
  IsNearest, rounded, split_eq, rounded-IsNearest, rounded-le, rounded_last,
}
use czarr.Prelude.Powers.{pow-add, pow-pos, pow-lt}

module _ (w s x : ℕ) (below : suc s < w) where
  half_eq : 2 ^ (suc s - 1) % 2 ^ w ≡ 2 ^ s
  half_eq = let e : suc s - 1 ≡ s = omega arith in rw e (mod-eq_of_lt (pow-lt s w (omega arith)))

  step_eq : 2 ^ suc s % 2 ^ w ≡ 2 * 2 ^ s
  step_eq = let h = pow-lt (suc s) w below in rw (mod-eq_of_lt h) (omega arith)

  mask_eq : suc ((2 ^ suc s % 2 ^ w + 2 ^ w - 1) % 2 ^ w) ≡ 2 * 2 ^ s
  mask_eq =
      let pos_step = pow-pos s in
      let under = pow-lt (suc s) w below in
      let e : 2 * 2 ^ s + 2 ^ w - 1 ≡ 1 * 2 ^ w + (2 * 2 ^ s - 1) = omega arith in
      rw (step_eq, e, radix-mod 1 (2 * 2 ^ s - 1) (2 ^ w) (omega arith)) (omega arith)

  kernel_eq :
      bitround_even w (suc s) x
      ≡ rounded (2 ^ s) (x - x % (2 * 2 ^ s)) (x % (2 * 2 ^ s)) (x / (2 * 2 ^ s)) % 2 ^ w
  unfolding bitround_even bitround_kernel
  kernel_eq = let e : 2 ^ suc s ≡ 2 * 2 ^ s = omega arith in rw (mask_eq, step_eq, half_eq, e) refl

  -- `_bitround_even` gives the nearest number whose lowest `shift` bits are zero, and of two the even
  -- one, where rounding up cannot carry past the word's top bit.
  pub bitround_even-IsNearest :
      x + 2 ^ s < 2 ^ w → IsNearest (2 ^ suc s) x (bitround_even w (suc s) x)
  bitround_even-IsNearest fits =
      let e : 2 ^ suc s ≡ 2 * 2 ^ s = omega arith in
      let near = rounded-IsNearest (2 ^ s) x (pow-pos s) in
      let low = rounded-le (2 ^ s) (x - x % (2 * 2 ^ s)) (x % (2 * 2 ^ s)) (x / (2 * 2 ^ s)) in
      let split = split_eq x (2 * 2 ^ s) (omega (arith, pow-pos s)) in
      let low' = rw split.1 at low in
      rw (kernel_eq, e, mod-eq_of_lt (lt_of_le_of_lt low' fits)) near

  -- Where the carry passes the top bit, the result is 0.
  pub bitround_even_carry : x < 2 ^ w → 2 ^ w ≤ x + 2 ^ s → bitround_even w (suc s) x ≡ 0
  bitround_even_carry lt le =
      let split = split_eq x (2 * 2 ^ s) (omega (arith, pow-pos s)) in
      let n : w - suc s ≡ suc (w - suc (suc s)) = omega arith in
      let even : 2 ^ (w - suc s) % 2 ≡ 0 = rw n (omega arith) in
      let whole : 2 ^ w ≡ 2 ^ (w - suc s) * (2 * 2 ^ s) =
        let e : suc s + (w - suc s) ≡ w = omega arith in
        let e' : 2 ^ suc s ≡ 2 * 2 ^ s = omega arith in
        let h = pow-add (suc s) (w - suc s) in rw (e, e') at h in
      let r =
        rounded_last (2 ^ s) x (2 ^ (w - suc s)) (x / (2 * 2 ^ s)) (x % (2 * 2 ^ s)) split.2 even
          (rw split.0 split.1) (rw (sym whole) lt) (rw (sym whole) le) in
      rw (kernel_eq, sym split.0, r, sym whole) (mod_self (2 ^ w))

get_elem?-map :
    (f : ℕ → ℕ) (xs : List ℕ) (i : ℕ) (x : ℕ)
    → get_elem? xs i ≡ some x
    → get_elem? (map f xs) i ≡ some (f x)
get_elem?-map f [] i x h = cc
get_elem?-map f (y ∷ xs) zero x h = let e : y ≡ x = cc in rw e refl
get_elem?-map f (y ∷ xs) (suc i) x h = get_elem?-map f xs i x h

-- The mantissa is narrower than the word.
shift_below : (dtype : Dtype) (m : ℕ) → mantissa_bits dtype ≡ some m → m < int_view dtype
shift_below float16 m e = let e' : 10 ≡ m = cc in omega arith
shift_below float32 m e = let e' : 23 ≡ m = cc in omega arith
shift_below float64 m e = let e' : 52 ≡ m = cc in omega arith
shift_below other m e = cc

-- Encoding a chunk of floats whose mantissa has more than `keepbits` bits replaces each element by the
-- nearest number whose dropped mantissa bits are zero, and of two that are as near by the one with an
-- even last kept bit, wherever rounding up cannot carry past the word's top bit.
pub bitround_encode-IsNearest :
    (dtype : Dtype) (keepbits s : ℕ) (bits : List ℕ) (i x : ℕ)
    → mantissa_bits dtype ≡ some (keepbits + suc s)
    → get_elem? bits i ≡ some x
    → x + 2 ^ s < 2 ^ int_view dtype
    → (out : List ℕ) × (y : ℕ) × (bitround_encode dtype (pos keepbits) bits ≡ done out)
      × (get_elem? out i ≡ some y)
      × IsNearest (2 ^ suc s) x y
unfolding bitround_encode
bitround_encode-IsNearest dtype keepbits s bits i x m at fits =
    let le : leb keepbits (keepbits + suc s) ≡ true = ground arith in
    let e : keepbits + suc s - keepbits ≡ suc s = omega arith in
    let below : suc s < int_view dtype =
      let h = shift_below dtype (keepbits + suc s) m in omega arith in
    (
      map (bitround_even (int_view dtype) (suc s)) bits,
      bitround_even (int_view dtype) (suc s) x,
      rw (m, le, e) refl,
      get_elem?-map (bitround_even (int_view dtype) (suc s)) bits i x at,
      bitround_even-IsNearest (int_view dtype) s x below fits,
    )

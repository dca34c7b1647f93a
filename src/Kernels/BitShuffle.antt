-- ===== src/Kernels/BitShuffle.antt =====
-- src/czarr/kernels/bitunshuffle.py: the kernel that inverts blosc's bitshuffle, one thread for each
-- element, and its launch.
use native.Mathlib.Nat.{mod-eq_of_lt, mod-lt, mul-le-mul_right, mul-div_right, div-add-mod'}
use czarr.Prelude.{
  ℕ, ◌+◌, ◌*◌, ◌/◌, ◌%◌, ◌^◌, ◌≤◌, ◌<◌, ◌≡◌, refl, ap, ◌∙◌, true, false, not, arith, ltb, lt→ltb,
  le→ltb, ◌==◌, if◌then◌else◌, Outcome, done, raise, ◌>>=◌, zero_division, not_implemented,
  overflow_error,
}
use czarr.Kernels.Bits.{
  bit, from_bits, from_bits-bit, bit-from_bits, from_bits-eq, radix-div, radix-mod,
}

abbrev pub Memory : Type 0
Memory = ℕ → ℕ

-- `np.uint32(x)`
abbrev pub u32_arg : ℕ → Outcome ℕ
u32_arg x = if ltb x (2 ^ 32) then done x else raise overflow_error

-- Byte bb of element e. The position in the block is an `unsigned int`.
unfoldable pub element_byte : ℕ → ℕ → Memory → ℕ → ℕ → ℕ
element_byte typesize blocksize scratch e bb =
    let epb = blocksize / typesize in
    let bpp = epb / 8 in
    let blk = e / epb * blocksize in
    let le = e % epb in
    from_bits (λ bp. bit (scratch (blk + ((bb * 8 + bp) * bpp + le / 8) % 2 ^ 32)) (le % 8))

-- The threads together: each writes the bytes of its element.
unfoldable pub kernel : ℕ → ℕ → ℕ → Memory → Memory → Memory
unfolding element_byte
kernel typesize blocksize nelems scratch out i =
    if ltb i (nelems * typesize)
    then element_byte typesize blocksize scratch (i / typesize) (i % typesize)
    else out i

-- `empty_launch` is what CUDA makes of a launch over no element.
unfoldable pub bitunshuffle_into : Outcome Memory → Memory → Memory → ℕ → ℕ → ℕ → Outcome Memory
unfolding kernel
bitunshuffle_into empty_launch scratch out out_size typesize blocksize =
    if typesize == 0
    then raise zero_division
    else if not (blocksize / typesize % 8 == 0)
    then raise not_implemented
    else do
      bs ← u32_arg blocksize
      nelems ← u32_arg (out_size / typesize)
      if nelems == 0 then empty_launch else done (kernel typesize bs nelems scratch out)

-- The forward shuffle as blosc documents it: bit-plane p of a block has bit p % 8 of byte p / 8 of its
-- elements, eight to a byte. Each plane has bpp bytes.
unfoldable pub bitshuffle : ℕ → ℕ → Memory → Memory
bitshuffle typesize bpp raw i =
    let blocksize = typesize * (bpp * 8) in
    let block = i / blocksize in
    let plane = i % blocksize / bpp in
    let group = i % blocksize % bpp in
    from_bits
      (λ j. bit (raw ((block * (bpp * 8) + (group * 8 + j)) * typesize + plane / 8)) (plane % 8))

in_block : (t bpp p g : ℕ) → p < t * 8 → g < bpp → p * bpp + g < t * (bpp * 8)
in_block t bpp p g hp hg =
    let whole : (p + 1) * bpp ≤ (t * 8) * bpp =
      mul-le-mul_right {m = p + 1} {n = t * 8} bpp (omega arith) in
    grind arith

bitshuffle-at :
    (t bpp : ℕ) (raw : Memory) (block p g : ℕ)
    → p < t * 8
    → g < bpp
    → bitshuffle t bpp raw (block * (t * (bpp * 8)) + (p * bpp + g))
      ≡ from_bits (λ j. bit (raw ((block * (bpp * 8) + (g * 8 + j)) * t + p / 8)) (p % 8))
unfolding bitshuffle
bitshuffle-at t bpp raw block p g hp hg =
    let inside = in_block t bpp p g hp hg in
    rw
      (
        radix-div block (p * bpp + g) (t * (bpp * 8)) inside,
        radix-mod block (p * bpp + g) (t * (bpp * 8)) inside,
        radix-div p g bpp hg,
        radix-mod p g bpp hg,
      )
      refl

-- Bit bp of a byte stands in the byte's bit-plane bp.
bit-bitshuffle :
    (t bpp : ℕ) (raw : Memory) (block g j bb bp : ℕ)
    → t * (bpp * 8) < 2 ^ 32
    → bb < t
    → g < bpp
    → j < 8
    → bp < 8
    → bit (bitshuffle t bpp raw (block * (t * (bpp * 8)) + ((bb * 8 + bp) * bpp + g) % 2 ^ 32)) j
      ≡ bit (raw ((block * (bpp * 8) + (g * 8 + j)) * t + bb)) bp
bit-bitshuffle t bpp raw block g j bb bp hw hbb hg hj hbp =
    let inside = in_block t bpp (bb * 8 + bp) g (omega arith) hg in
    let small : (bb * 8 + bp) * bpp + g < 2 ^ 32 = omega arith in
    rw
      (
        mod-eq_of_lt small,
        bitshuffle-at t bpp raw block (bb * 8 + bp) g (omega arith) hg,
        radix-div bb bp 8 hbp,
        radix-mod bb bp 8 hbp,
      )
      (bit-from_bits (λ i. bit (raw ((block * (bpp * 8) + (g * 8 + i)) * t + bb)) bp) j hj
        (λ k. mod-lt _ (omega arith)))

-- One byte comes back.
element_byte-bitshuffle :
    (t bpp : ℕ) (raw : Memory) (e bb : ℕ)
    → ((i : ℕ) → raw i < 256)
    → 0 < t
    → 0 < bpp
    → t * (bpp * 8) < 2 ^ 32
    → bb < t
    → element_byte t (t * (bpp * 8)) (bitshuffle t bpp raw) e bb ≡ raw (e * t + bb)
unfolding element_byte
element_byte-bitshuffle t bpp raw e bb bytes ht hb hw hbb =
    let epb : t * (bpp * 8) / t ≡ bpp * 8 = mul-div_right (bpp * 8) ht in
    let planes : bpp * 8 / 8 ≡ bpp = omega arith in
    let pos : 0 < bpp * 8 = omega arith in
    let le_lt : e % (bpp * 8) < bpp * 8 = mod-lt e pos in
    let place : e / (bpp * 8) * (bpp * 8) + (e % (bpp * 8) / 8 * 8 + e % (bpp * 8) % 8) ≡ e =
      omega (arith, div-add-mod' e (bpp * 8)) in
    rw (epb, planes)
      (from_bits-eq _ (bit (raw (e * t + bb))) (λ bp hbp.
          bit-bitshuffle t bpp raw (e / (bpp * 8)) (e % (bpp * 8) / 8) (e % (bpp * 8) % 8) bb bp hw
            hbb (omega arith) (omega arith) hbp
          ∙ ap (λ x. bit (raw (x * t + bb)) bp) place)
        ∙ from_bits-bit (raw (e * t + bb)) (bytes (e * t + bb)))

launched :
    (empty_launch : Outcome Memory) (scratch out : Memory) (size t bpp : ℕ)
    → 0 < t
    → t * (bpp * 8) < 2 ^ 32
    → 0 < size / t
    → size / t < 2 ^ 32
    → bitunshuffle_into empty_launch scratch out size t (t * (bpp * 8))
      ≡ done (kernel t (t * (bpp * 8)) (size / t) scratch out)
unfolding bitunshuffle_into
launched empty_launch scratch out size t bpp ht hw some_ hn =
    let epb : t * (bpp * 8) / t ≡ bpp * 8 = mul-div_right (bpp * 8) ht in
    let whole : bpp * 8 % 8 ≡ 0 = omega arith in
    let some_width : (t == 0) ≡ false = ground arith in
    let elements : (size / t == 0) ≡ false = ground arith in
    let groups : (t * (bpp * 8) / t % 8 == 0) ≡ true =
      ap (λ n. n % 8 == 0) epb ∙ ap (λ n. n == 0) whole in
    rw
      (
        some_width,
        groups,
        lt→ltb (t * (bpp * 8)) (2 ^ 32) hw,
        lt→ltb (size / t) (2 ^ 32) hn,
        elements,
      )
      refl

-- The kernel puts every whole element of the output back in its place, for bytes that blosc shuffled in
-- blocks of t * bpp * 8 bytes, and leaves the bytes behind the last whole element as they were. The
-- conditions: the element size and the planes are not empty, the output has a whole element, and the
-- sizes fit in 32 bits.
pub bitunshuffle_into-bitshuffle :
    (empty_launch : Outcome Memory) (raw out : Memory) (size t bpp : ℕ)
    → ((i : ℕ) → raw i < 256)
    → 0 < t
    → 0 < bpp
    → t * (bpp * 8) < 2 ^ 32
    → 0 < size / t
    → size / t < 2 ^ 32
    → (mem : Memory) × (bitunshuffle_into empty_launch
          (bitshuffle t bpp raw)
          out
          size
          t
          (t * (bpp * 8))
        ≡ done mem)
      × ((i : ℕ) → i < size / t * t → mem i ≡ raw i)
      × ((i : ℕ) → size / t * t ≤ i → mem i ≡ out i)
bitunshuffle_into-bitshuffle empty_launch raw out size t bpp bytes ht hb hw some_ hn = (
  kernel t (t * (bpp * 8)) (size / t) (bitshuffle t bpp raw) out,
  launched empty_launch (bitshuffle t bpp raw) out size t bpp ht hw some_ hn,
  (λ i h.
      unfold kernel in
      rw (lt→ltb i (size / t * t) h) (
        element_byte-bitshuffle t bpp raw (i / t) (i % t) bytes ht hb hw (mod-lt i ht)
        ∙ ap raw (div-add-mod' i t))),
  (λ i h. unfold kernel in rw (le→ltb i (size / t * t) h) refl),
)

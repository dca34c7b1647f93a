-- ===== src/Examples/Kernels.antt =====
-- The shuffles at concrete sizes.
use native.Mathlib.Nat.{mod-lt}
use czarr.Prelude.{
  ℕ, ◌+◌, ◌*◌, ◌/◌, ◌%◌, ◌≤◌, ◌<◌, ◌≡◌, refl, ap, arith, done, raise, not_implemented,
  runtime_error, value_error,
}
use czarr.Kernels.Bits.{radix-div, radix-mod}
use czarr.Kernels.BitShuffle.{Memory, bitunshuffle_into, bitshuffle, bitunshuffle_into-bitshuffle}
use czarr.Kernels.ByteShuffle.{
  ByteArray, byteshuffle, byteunshuffle, shuffle_encode, shuffle_decode, byteunshuffle-byteshuffle,
  shuffle_decode-shuffle_encode,
}

abbrev ramp : Memory
ramp i = i % 256

abbrev noise : Memory
noise i = 7

-- Two blocks of 8 elements of 2 bytes, and one byte more.
bitunshuffle_into-bitshuffle_example :
    (mem : Memory) × (bitunshuffle_into (raise runtime_error) (bitshuffle 2 1 ramp) noise 33 2 16
      ≡ done mem)
    × ((i : ℕ) → i < 32 → mem i ≡ ramp i)
    × ((i : ℕ) → 32 ≤ i → mem i ≡ noise i)
bitunshuffle_into-bitshuffle_example =
    bitunshuffle_into-bitshuffle (raise runtime_error) ramp noise 33 2 1
      (λ i. mod-lt i (omega arith)) (omega arith) (omega arith) (omega arith) (omega arith)
      (omega arith)

bitunshuffle_tail :
    bitunshuffle_into (raise runtime_error) ramp noise 24 2 24 ≡ raise not_implemented
unfolding bitunshuffle_into
bitunshuffle_tail = refl

-- Arrays of a size and a content.
abbrev swap_index : ℕ → ℕ → ℕ → ℕ
swap_index a b i = (i / a / b * a + i % a) * b + i / a % b

swap_index-at :
    (a b k i j : ℕ) → i < a → j < b → swap_index a b ((k * b + j) * a + i) ≡ (k * a + i) * b + j
swap_index-at a b k i j hi hj =
    rw
      (
        radix-div (k * b + j) i a hi,
        radix-mod (k * b + j) i a hi,
        radix-div k j b hj,
        radix-mod k j b hj,
      )
      refl

abbrev indexed : ByteArray
indexed = record {
  Arr = ℕ × (ℕ → ℕ);
  size = λ x. x.0;
  at = λ x. x.1;
  swap = λ x n a b. (x.0, λ i. x.1 (swap_index a b i));
  size-swap = λ x n a b h. refl;
  at-swap = λ x n a b k i j h hk hi hj. ap x.1 (swap_index-at a b k i j hi hj);
}

abbrev six : indexed.Arr
six = (6, λ i. i * 10)

abbrev six_packed : indexed.Arr
six_packed = (6, λ i. swap_index 3 2 i * 10)

byteunshuffle-byteshuffle_example :
    (out : indexed.Arr) × (byteunshuffle indexed six_packed 2 6 ≡ done out)
    × (out.0 ≡ 6)
    × ((i : ℕ) → i < 6 → out.1 i ≡ i * 10)
byteunshuffle-byteshuffle_example =
    byteunshuffle-byteshuffle indexed six six_packed 2 6 (unfold byteshuffle in refl)

shuffle_decode-shuffle_encode_example :
    (packed : indexed.Arr) × (shuffle_encode indexed 2 six ≡ done packed)
    × (out : indexed.Arr) × (shuffle_decode indexed 2 packed ≡ done out)
    × (packed.0 ≡ 6)
    × (out.0 ≡ 6)
    × ((i : ℕ) → i < 6 → out.1 i ≡ i * 10)
shuffle_decode-shuffle_encode_example =
    shuffle_decode-shuffle_encode indexed six 3 2 refl (omega arith)

shuffle_uneven : shuffle_encode indexed 4 six ≡ raise value_error
unfolding shuffle_encode
shuffle_uneven = refl

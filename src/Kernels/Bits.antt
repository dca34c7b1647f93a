-- ===== src/Kernels/Bits.antt =====
-- Bytes as their eight bits, and the quotient and the remainder of a number in mixed radix.
use native.Mathlib.Nat.{mul-add-div_right, mul-add-mod_self_right, mod-eq_of_lt, div-eq_of_lt}
use czarr.Prelude.{ℕ, zero, suc, ◌+◌, ◌*◌, ◌/◌, ◌%◌, ◌^◌, ◌<◌, ◌≡◌, ◌∙◌, arith}

-- `(x >> k) & 1`
abbrev pub bit : ℕ → ℕ → ℕ
bit x k = x / 2 ^ k % 2

-- The byte with these bits, the lowest first: `v |= b << k` for k from 0 to 7.
abbrev pub from_bits : (ℕ → ℕ) → ℕ
from_bits b = b 0 + 2 * b 1 + 4 * b 2 + 8 * b 3 + 16 * b 4 + 32 * b 5 + 64 * b 6 + 128 * b 7

pub from_bits-bit : (x : ℕ) → x < 256 → from_bits (bit x) ≡ x
from_bits-bit x h = omega arith

-- Bytes whose bits agree are the same.
pub from_bits-eq : (b c : ℕ → ℕ) → ((k : ℕ) → k < 8 → b k ≡ c k) → from_bits b ≡ from_bits c
from_bits-eq b c h = omega (
  arith,
  h 0 (omega arith),
  h 1 (omega arith),
  h 2 (omega arith),
  h 3 (omega arith),
  h 4 (omega arith),
  h 5 (omega arith),
  h 6 (omega arith),
  h 7 (omega arith),
)

pub bit-from_bits : (b : ℕ → ℕ) (j : ℕ) → j < 8 → ((k : ℕ) → b k < 2) → bit (from_bits b) j ≡ b j
bit-from_bits b zero h low = omega (arith, low 0, low 1, low 2, low 3, low 4, low 5, low 6, low 7)
bit-from_bits b (suc zero) h low =
    omega (arith, low 0, low 1, low 2, low 3, low 4, low 5, low 6, low 7)
bit-from_bits b (suc (suc zero)) h low =
    omega (arith, low 0, low 1, low 2, low 3, low 4, low 5, low 6, low 7)
bit-from_bits b (suc (suc (suc zero))) h low =
    omega (arith, low 0, low 1, low 2, low 3, low 4, low 5, low 6, low 7)
bit-from_bits b (suc (suc (suc (suc zero)))) h low =
    omega (arith, low 0, low 1, low 2, low 3, low 4, low 5, low 6, low 7)
bit-from_bits b (suc (suc (suc (suc (suc zero))))) h low =
    omega (arith, low 0, low 1, low 2, low 3, low 4, low 5, low 6, low 7)
bit-from_bits b (suc (suc (suc (suc (suc (suc zero)))))) h low =
    omega (arith, low 0, low 1, low 2, low 3, low 4, low 5, low 6, low 7)
bit-from_bits b (suc (suc (suc (suc (suc (suc (suc zero))))))) h low =
    omega (arith, low 0, low 1, low 2, low 3, low 4, low 5, low 6, low 7)
bit-from_bits b (suc (suc (suc (suc (suc (suc (suc (suc j)))))))) h low = absurd (omega arith)

-- The digits of `q * m + r` in the radix m.
pub radix-div : (q r m : ℕ) → r < m → (q * m + r) / m ≡ q
radix-div q r m h =
    let m-pos : 0 < m = omega arith in
    rw (mul-add-div_right m-pos q r, div-eq_of_lt h) (omega arith)

pub radix-mod : (q r m : ℕ) → r < m → (q * m + r) % m ≡ r
radix-mod q r m h = mul-add-mod_self_right q m r ∙ mod-eq_of_lt h

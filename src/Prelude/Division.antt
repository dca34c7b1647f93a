-- ===== src/Prelude/Division.antt =====
-- Division by a positive number, as bounds on its quotient.
use Prim.Native.Nat.{ℕ, zero, suc, ◌+◌, ◌-◌, ◌*◌, ◌/◌, ◌%◌, ◌≤◌, ◌<◌}
use mathlib.Core.Path.{◌≡◌}
use native.Mathlib.Nat.{div-add-mod}
use native.Mathlib.Omega.{arith}
use czarr.Prelude.Int.{pos, neg, floor_div, pos_part}

-- `-(-a // b)` for a positive b, as Python's floor division computes it.
unfoldable pub ceil : ℕ → ℕ → ℕ
ceil a b = pos_part (neg (floor_div (neg (pos a)) b))

pub div-mul-le : (n c : ℕ) → 0 < c → n / c * c ≤ n
div-mul-le n c h = grind arith

pub lt-div-mul : (n c : ℕ) → 0 < c → n < n / c * c + c
lt-div-mul n c h = grind arith

pub le-div_of_lt : (u n c : ℕ) → 0 < c → n < u * c + c → n / c ≤ u
le-div_of_lt u n c h lt = grind arith

pub lt_of_le-div : (u n c : ℕ) → 0 < c → n / c ≤ u → n < u * c + c
lt_of_le-div u n c h le = grind arith

pub ceil-zero : (c : ℕ) → 0 < c → ceil 0 c ≡ 0
unfolding ceil
ceil-zero c h = let e : 0 / c ≡ 0 = grind arith in rw e

pub lt-ceil_of_lt : (u n c : ℕ) → 0 < c → u * c < n → u < ceil n c
unfolding ceil
lt-ceil_of_lt u zero c h lt = absurd (omega arith)
lt-ceil_of_lt u (suc n) c h lt = grind arith

pub lt_of_lt-ceil : (u n c : ℕ) → 0 < c → u < ceil n c → u * c < n
unfolding ceil
lt_of_lt-ceil u zero c h lt = absurd (omega (arith, ceil-zero c h))
lt_of_lt-ceil u (suc n) c h lt = grind arith

pub le-div_of_mul-le : (u n c : ℕ) → 0 < c → u * c ≤ n → u ≤ n / c
le-div_of_mul-le u n c h le = grind arith

pub mul-le_of_le-div : (u n c : ℕ) → 0 < c → u ≤ n / c → u * c ≤ n
mul-le_of_le-div u n c h le = grind arith

-- The remainder is what is left behind the quotient's multiple.
pub mod-eq-sub : (u n c : ℕ) → 0 < c → u ≡ n / c → n % c ≡ n - u * c
mod-eq-sub u n c h e = grind (arith, div-add-mod n c)

-- ===== src/Prelude/Powers.antt =====
-- Powers of two.
use Prim.Native.Nat.{ℕ, zero, suc, ◌+◌, ◌-◌, ◌*◌, ◌^◌, ◌≤◌, ◌<◌}
use mathlib.Core.Path.{◌≡◌}
use mathlib.Core.Logic.{inl, inr}
use native.Mathlib.Nat.{eq-or-lt_of_le}
use native.Mathlib.Omega.{arith}

pub scaled-le : (a b d : ℕ) → a ≤ b → a * d ≤ b * d
scaled-le a b d h = grind arith

pub pow-add : (s e : ℕ) → 2 ^ (s + e) ≡ 2 ^ e * 2 ^ s
pow-add s zero = let e : s + 0 ≡ s = omega arith in rw e (omega arith)
pow-add s (suc e) =
    let n : s + suc e ≡ suc (s + e) = omega arith in let ih = pow-add s e in rw n (grind arith)

pub pow-pos : (k : ℕ) → 0 < 2 ^ k
pow-pos zero = omega arith
pow-pos (suc k) = omega (arith, pow-pos k)

pub pow-lt : (a w : ℕ) → a < w → 2 ^ a < 2 ^ w
pow-lt a w h =
    let e : a + suc (w - suc a) ≡ w = omega arith in
    let split = pow-add a (suc (w - suc a)) in
    let split' = rw e at split in
    let le : 2 * 2 ^ a ≤ 2 ^ suc (w - suc a) * 2 ^ a =
      scaled-le 2 (2 ^ suc (w - suc a)) (2 ^ a) (omega (arith, pow-pos (w - suc a))) in
    omega (arith, split', le, pow-pos a)

pub pow-le : (a w : ℕ) → a ≤ w → 2 ^ a ≤ 2 ^ w
pow-le a w h = elim (eq-or-lt_of_le h) [
  | inl e ↦ rw e (omega arith)
  | inr lt ↦ omega (arith, pow-lt a w lt)
]

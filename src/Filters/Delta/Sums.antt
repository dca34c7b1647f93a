-- ===== src/Filters/Delta/Sums.antt =====
-- The arithmetic of src/czarr/codecs/filters/delta.py: sums undo differences modulo the width, and a
-- narrow dtype keeps the numbers in its range.
use czarr.Prelude.{
  ℕ, zero, suc, ◌+◌, ◌-◌, ◌*◌, ◌%◌, ◌^◌, ◌≤◌, ◌<◌, ◌≡◌, refl, ap, ap₂, ◌⊎◌, inl, inr, true, false,
  List, [], ◌∷◌, map, leb, Bool-cases, ◌&&◌, Every, arith, if◌then◌else◌,
}
use native.Mathlib.Nat.{mod-eq_of_lt}
use czarr.Prelude.Powers.{pow-pos, pow-le}
use czarr.Filters.{IntDtype, CupyInts, convert, sums}

add-sub_mod : (m a b : ℕ) → a < m → b < m → (a + (b + m - a) % m) % m ≡ b
add-sub_mod m a b ha hb = grind arith

-- The element `y` as a signed number lies in the range of a signed dtype of `v` bits.
pub record InRange (w v y : ℕ) : Type 0 where
  pub word : y < 2 ^ w
  pub range : (y < 2 ^ (v - 1)) ⊎ (2 ^ w ≤ y + 2 ^ (v - 1))

-- The conversion, with the powers of the two widths as numbers: the sign bit and the modulus.
abbrev resign : ℕ → ℕ → ℕ → ℕ → ℕ
resign h v w y = if leb h y then (w - (v - y) % w) % w else y % w

resign_low : (h v w y : ℕ) → y < h → y < w → resign h v w y ≡ y
resign_low h v w y a b = let e : leb h y ≡ false = ground arith in rw e (mod-eq_of_lt b)

resign_high : (h v w y : ℕ) → h ≤ y → y < v → v - y < w → resign h v w y ≡ w - (v - y)
resign_high h v w y a b c =
    let e : leb h y ≡ true = ground arith in rw (e, mod-eq_of_lt c) (mod-eq_of_lt (omega arith))

half_power : (w : ℕ) → 0 < w → 2 ^ w ≡ 2 * 2 ^ (w - 1)
half_power zero p = absurd (omega arith)
half_power (suc w) p = let e : suc w - 1 ≡ w = omega arith in rw e (omega arith)

resign_twice :
    (w v y : ℕ)
    → 0 < v
    → v ≤ w
    → InRange w v y
    → resign (2 ^ (v - 1)) (2 ^ v) (2 ^ w) (resign (2 ^ (w - 1)) (2 ^ w) (2 ^ v) y) ≡ y
resign_twice w v y p le r =
    let hv = half_power v p in
    let hw = half_power w (omega arith) in
    let hp = pow-pos (v - 1) in
    let le' = pow-le (v - 1) (w - 1) (omega arith) in
    elim r.range [
      | inl low ↦
          rw
            (
              resign_low (2 ^ (w - 1)) (2 ^ w) (2 ^ v) y (omega arith) (omega arith),
              resign_low (2 ^ (v - 1)) (2 ^ v) (2 ^ w) y (omega arith) (omega arith),
            )
            refl
      | inr high ↦
          let lt = r.word in
          let back : 2 ^ w - (2 ^ v - (2 ^ v - (2 ^ w - y))) ≡ y = omega arith in
          rw
            (
              resign_high (2 ^ (w - 1)) (2 ^ w) (2 ^ v) y (omega arith) (omega arith) (omega arith),
              resign_high (2 ^ (v - 1)) (2 ^ v) (2 ^ w) (2 ^ v - (2 ^ w - y)) (omega arith)
                  (omega arith) (omega arith),
            )
            back
    ]

-- A number in the range of the narrow dtype comes back from it.
pub convert-convert :
    (d n : IntDtype) (y : ℕ)
    → d.signed ≡ true
    → n.signed ≡ true
    → 0 < n.bits
    → n.bits ≤ d.bits
    → InRange d.bits n.bits y
    → convert n d (convert d n y) ≡ y
convert-convert d n y sd sn p le r = rw (sd, sn) (resign_twice d.bits n.bits y p le r)

-- An element of the dtype itself is kept.
pub convert_same : (d : IntDtype) (x : ℕ) → 0 < d.bits → x < 2 ^ d.bits → convert d d x ≡ x
convert_same d x p h =
    let e = half_power d.bits p in
    elim (Bool-cases (d.signed && leb (2 ^ (d.bits - 1)) x)) [
      | inl t ↦
          let c : 2 ^ d.bits - x < 2 ^ d.bits = ground arith in
          let b : 2 ^ d.bits - (2 ^ d.bits - x) ≡ x = omega arith in
          rw (t, mod-eq_of_lt c, b) (mod-eq_of_lt h)
      | inr t ↦ rw t (mod-eq_of_lt h)
    ]

pub convert-map :
    (d : IntDtype) (xs : List ℕ)
    → 0 < d.bits
    → Every (λ x. x < 2 ^ d.bits) xs
    → map (convert d d) xs ≡ xs
convert-map d [] p h = refl
convert-map d (x ∷ xs) p h = ap₂ ◌∷◌ (convert_same d x p h.0) (convert-map d xs p h.1)

pub map-convert_twice :
    (d n : IntDtype) (xs : List ℕ)
    → d.signed ≡ true
    → n.signed ≡ true
    → 0 < n.bits
    → n.bits ≤ d.bits
    → Every (InRange d.bits n.bits) xs
    → map (convert n d) (map (convert d n) xs) ≡ xs
map-convert_twice d n [] sd sn p le h = refl
map-convert_twice d n (x ∷ xs) sd sn p le h =
    ap₂ ◌∷◌ (convert-convert d n x sd sn p le h.0) (map-convert_twice d n xs sd sn p le h.1)

-- Differences are words of the dtype.
pub diff-Every :
    (cupy : CupyInts) (d : IntDtype) (x : ℕ) (xs : List ℕ)
    → Every (λ y. y < 2 ^ d.bits) (cupy.diff d (x ∷ xs))
diff-Every cupy d x [] = rw (cupy.diff-one d x) tt
diff-Every cupy d x (y ∷ ys) =
    let pos = pow-pos d.bits in rw (cupy.diff-cons d x y ys) (grind arith, diff-Every cupy d y ys)

-- The sums of the differences are the elements.
pub sums-diff :
    (cupy : CupyInts) (d : IntDtype) (x : ℕ) (xs : List ℕ)
    → Every (λ y. y < 2 ^ d.bits) (x ∷ xs)
    → sums d x (cupy.diff d (x ∷ xs)) ≡ xs
sums-diff cupy d x [] h = rw (cupy.diff-one d x) refl
sums-diff cupy d x (y ∷ ys) h =
    rw (cupy.diff-cons d x y ys, add-sub_mod (2 ^ d.bits) x y h.0 h.1.0)
      (ap (◌∷◌ y) (sums-diff cupy d y ys h.1))

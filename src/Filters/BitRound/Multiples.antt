-- ===== src/Filters/BitRound/Multiples.antt =====
-- Rounding to the nearest multiple, ties to the even one, for `_bitround_even` of
-- src/czarr/codecs/filters/bitround.py.
use czarr.Prelude.{
  ℕ, suc, ◌+◌, ◌-◌, ◌*◌, ◌/◌, ◌%◌, ◌≤◌, ◌<◌, ◌≡◌, refl, sym, ◌⊎◌, inl, inr, ◌||◌, ◌&&◌, Bool-cases,
  ltb→lt, Bool, true, not, ltb, ◌==◌, if◌then◌else◌, arith,
}
use native.Mathlib.Nat.{div-add-mod, mul-mod_left, le_of_mul-le-mul_right, mul-div_left}
use czarr.Prelude.Powers.{scaled-le}

abbrev pub dist : ℕ → ℕ → ℕ
dist a b = (a - b) + (b - a)

-- `y` is a multiple of `d`, no multiple is nearer to `x`, and of two that are as near it is the even.
pub record IsNearest (d x y : ℕ) : Type 0 where
  pub multiple : y % d ≡ 0
  pub nearest : (k : ℕ) → dist y x ≤ dist (k * d) x
  pub even_tie : (k : ℕ) → dist y x ≡ dist (k * d) x → (k * d ≡ y) ⊎ (y / d % 2 ≡ 0)

-- Whether the kernel rounds up: the discarded bits `r`, the half `h` and the quotient `q`.
abbrev pub ups : ℕ → ℕ → ℕ → Bool
ups h r q = ltb h r || ((r == h) && not (q % 2 == 0))

-- The value that the kernel's sum has before it wraps, of `a + r` with `a` the multiple `q` of `2h`.
abbrev pub rounded : ℕ → ℕ → ℕ → ℕ → ℕ
rounded h a r q = a + (if ups h r q then 2 * h else 0)

next-le : (q k d : ℕ) → q < k → q * d + d ≤ k * d
next-le q k d h = let h' = scaled-le (suc q) k d h in grind arith

-- The multiples of `d` lie at or below the multiple `q * d`, or at least `d` above it.
apart : (q k d : ℕ) → (k * d ≤ q * d) ⊎ (q * d + d ≤ k * d)
apart q k d = elim (Bool-cases (ltb q k)) [
  | inl e ↦ inr (next-le q k d (ltb→lt q k e))
  | inr e ↦ inl (scaled-le k q d (ground arith))
]

rounded-nearest :
    (h a r q m : ℕ)
    → 0 < h
    → r < 2 * h
    → (m ≤ a) ⊎ (a + 2 * h ≤ m)
    → dist (rounded h a r q) (a + r) ≤ dist m (a + r)
rounded-nearest h a r q m p lt (inl le) = ground arith
rounded-nearest h a r q m p lt (inr le) = ground arith

rounded-tie :
    (h a r q m : ℕ)
    → 0 < h
    → r < 2 * h
    → (m ≤ a) ⊎ (a + 2 * h ≤ m)
    → dist (rounded h a r q) (a + r) ≡ dist m (a + r)
    → (m ≡ rounded h a r q) ⊎ ((if ups h r q then suc q else q) % 2 ≡ 0)
rounded-tie h a r q m p lt (inl le) e = ground arith
rounded-tie h a r q m p lt (inr le) e = ground arith

-- A number as the multiple below it and the rest.
pub split_eq : (x d : ℕ) → 0 < d → (x / d * d ≡ x - x % d) × (x - x % d + x % d ≡ x) × (x % d < d)
split_eq x d p = grind (arith, div-add-mod x d)

-- The multiple that the kernel rounds to.
rounded_multiple :
    (h a r q : ℕ) → a ≡ q * (2 * h) → rounded h a r q ≡ (if ups h r q then suc q else q) * (2 * h)
rounded_multiple h a r q e = elim (Bool-cases (ups h r q)) [
  | inl u ↦ rw u (grind (arith, e))
  | inr u ↦ rw u (grind (arith, e))
]

multiple-IsNearest :
    (h x a r q : ℕ)
    → 0 < h
    → r < 2 * h
    → a ≡ q * (2 * h)
    → a + r ≡ x
    → IsNearest (2 * h) x (rounded h a r q)
multiple-IsNearest h x a r q p lt e e' =
    let d-pos : 0 < 2 * h = omega arith in
    let m = rounded_multiple h a r q e in
    record {
      multiple = rw m (mul-mod_left (if ups h r q then suc q else q) (2 * h));
      nearest = λ k.
          let near = rounded-nearest h a r q (k * (2 * h)) p lt (rw e (apart q k (2 * h))) in
          rw e' at near;
      even_tie = λ k t.
          elim (rounded-tie h a r q (k * (2 * h)) p lt (rw e (apart q k (2 * h))) (rw e' t)) [
            | inl same ↦ inl same
            | inr even ↦ inr (rw (m, mul-div_left (if ups h r q then suc q else q) d-pos) even)
          ];
    }

pub rounded-IsNearest :
    (h x : ℕ)
    → 0 < h
    → IsNearest (2 * h) x (rounded h (x - x % (2 * h)) (x % (2 * h)) (x / (2 * h)))
rounded-IsNearest h x p =
    let s = split_eq x (2 * h) (omega arith) in
    multiple-IsNearest h x (x - x % (2 * h)) (x % (2 * h)) (x / (2 * h)) p s.2 (sym s.0) s.1

pub rounded-le : (h a r q : ℕ) → rounded h a r q ≤ a + r + h
rounded-le h a r q = ground arith

last_multiple :
    (h x K q r : ℕ)
    → r < 2 * h
    → q * (2 * h) + r ≡ x
    → x < K * (2 * h)
    → K * (2 * h) ≤ x + h
    → suc q ≡ K
last_multiple h x K q r rlt e lt le = elim (apart q K (2 * h)) [
  | inl low ↦ absurd (omega arith)
  | inr high ↦ elim (apart (suc q) K (2 * h)) [
    | inl near ↦ omega (
      arith,
      le_of_mul-le-mul_right {m = K} {n = suc q} {k = 2 * h} near (omega arith),
      le_of_mul-le-mul_right {m = suc q} {n = K} {k = 2 * h} (grind (arith, high)) (omega arith),
    )
    | inr far ↦ absurd (grind arith)
  ]
]

-- At the last of an even number of multiples, half of the way up rounds up.
pub rounded_last :
    (h x K q r : ℕ)
    → r < 2 * h
    → K % 2 ≡ 0
    → q * (2 * h) + r ≡ x
    → x < K * (2 * h)
    → K * (2 * h) ≤ x + h
    → rounded h (q * (2 * h)) r q ≡ K * (2 * h)
rounded_last h x K q r rlt even e lt le =
    let last = last_multiple h x K q r rlt e lt le in
    let halfway : h ≤ r = let le' = rw (sym last) at le in grind arith in
    let u : ups h r q ≡ true = ground arith in
    rw (rounded_multiple h (q * (2 * h)) r q refl, u, last) refl

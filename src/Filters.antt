-- ===== src/Filters.antt =====
-- src/czarr/codecs/filters: the filters of numeric chunks. A chunk is the list of its elements, each
-- as its bit pattern.
use czarr.Prelude.{
  ℕ, zero, ◌+◌, ◌-◌, ◌%◌, ◌^◌, ◌<◌, ◌≡◌, refl, Bool, true, false, ◌&&◌, List, [], ◌∷◌, map, length,
  leb, ◌==◌, if◌then◌else◌,
}
pub mod BitRound
pub mod Delta
pub mod FixedScaleOffset

-- An integer dtype of numpy, whose elements are words of `bits` bits.
pub record IntDtype : Type 0 where
  pub bits : ℕ
  pub signed : Bool

abbrev pub same_sign : Bool → Bool → Bool
same_sign true b = b
same_sign false true = false
same_sign false false = true

-- `dtype == dtype`
abbrev pub same_dtype : IntDtype → IntDtype → Bool
same_dtype d e = (d.bits == e.bits) && same_sign d.signed e.signed

-- The element of `to` that numpy makes of an element of `from`: a negative one keeps its value modulo
-- 2 ^ to.bits.
abbrev pub convert : IntDtype → IntDtype → ℕ → ℕ
convert from to x =
    if from.signed && leb (2 ^ (from.bits - 1)) x
    then (2 ^ to.bits - (2 ^ from.bits - x) % 2 ^ to.bits) % 2 ^ to.bits
    else x % 2 ^ to.bits

abbrev pub add_word : IntDtype → ℕ → ℕ → ℕ
add_word d a b = (a + b) % 2 ^ d.bits

abbrev pub sub_word : IntDtype → ℕ → ℕ → ℕ
sub_word d a b = (a + 2 ^ d.bits - b) % 2 ^ d.bits

-- The sums of the first elements, behind a sum `a` so far.
abbrev pub sums : IntDtype → ℕ → List ℕ → List ℕ
sums d a [] = []
sums d a (x ∷ xs) = add_word d a x ∷ sums d (add_word d a x) xs

-- What the filters use of cupy on flat integer arrays: `xs.astype(e)`, `cp.diff(xs)` and
-- `cp.cumsum(xs, dtype=e)`, with the elements as numpy documents them.
pub record CupyInts : Type 0 where
  pub astype : IntDtype → IntDtype → List ℕ → List ℕ
  pub diff : IntDtype → List ℕ → List ℕ
  pub cumsum : IntDtype → IntDtype → List ℕ → List ℕ
  pub astype-convert : (d e : IntDtype) (xs : List ℕ) → astype d e xs ≡ map (convert d e) xs
  pub diff-one : (d : IntDtype) (x : ℕ) → diff d (x ∷ []) ≡ []
  pub diff-cons :
      (d : IntDtype) (x y : ℕ) (ys : List ℕ)
      → diff d (x ∷ y ∷ ys) ≡ sub_word d y x ∷ diff d (y ∷ ys)
  pub cumsum-sums : (d e : IntDtype) (xs : List ℕ) → cumsum d e xs ≡ sums e 0 (map (convert d e) xs)

-- What the filters use of cuda.compute: a scanner that `make_inclusive_scan` makes for the dtype and the
-- size of its input and the dtype of its output, with addition as its operator, gives the sums of the
-- initial value and the first elements of an input of that dtype and size.
pub record CudaCompute : Type 1 where
  pub Scanner : Type 0
  pub available : Bool
  pub make_inclusive_scan : IntDtype → ℕ → IntDtype → Scanner
  pub scan : Scanner → ℕ → List ℕ → List ℕ
  pub scan-make :
      (d : IntDtype) (init : ℕ) (xs : List ℕ)
      → scan (make_inclusive_scan d (length xs) d) init xs ≡ sums d init xs

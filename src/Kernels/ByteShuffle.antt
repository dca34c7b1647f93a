-- ===== src/Kernels/ByteShuffle.antt =====
-- src/czarr/kernels/byteshuffle.py, and the filter of src/czarr/codecs/filters/shuffle.py on it. cupy's
-- arrays of bytes are the parameter `ByteArray`.
use native.Mathlib.Nat.{mod-lt, div-add-mod', mul-div_cancel, div_self, mod_self, div-lt_iff_lt-mul}
use czarr.Prelude.{
  ℕ, zero, suc, ◌+◌, ◌*◌, ◌/◌, ◌%◌, ◌<◌, ◌≡◌, sym, ap, ap₂, ◌∙◌, not, arith, ◌==◌, if◌then◌else◌,
  Outcome, done, raise, zero_division, value_error,
}

-- `swap x n a b` is `ascontiguousarray(x.reshape(n, a, b).transpose(0, 2, 1)).ravel()` for a shape
-- that has the elements of x.
pub record ByteArray : Type 1 where
  pub Arr : Type 0
  pub size : Arr → ℕ
  pub at : Arr → ℕ → ℕ
  pub swap : Arr → ℕ → ℕ → ℕ → Arr
  pub size-swap : (x : Arr) (n a b : ℕ) → n * a * b ≡ size x → size (swap x n a b) ≡ size x
  pub at-swap :
      (x : Arr) (n a b k i j : ℕ)
      → n * a * b ≡ size x
      → k < n
      → i < a
      → j < b
      → at (swap x n a b) ((k * b + j) * a + i) ≡ at x ((k * a + i) * b + j)

factors_pos : (n a b i : ℕ) → i < n * a * b → (0 < a) × (0 < b)
factors_pos n zero b i h = absurd (omega arith)
factors_pos n (suc a) zero i h = absurd (omega arith)
factors_pos n (suc a) (suc b) i h = (omega arith, omega arith)

swapped_count : (n a b s : ℕ) → n * a * b ≡ s → n * b * a ≡ s
swapped_count n a b s h = grind arith

module _ (B : ByteArray) where
  -- A `reshape` to another number of elements is a ValueError.
  abbrev pub reshape_swap : B.Arr → ℕ → ℕ → ℕ → Outcome B.Arr
  reshape_swap x n a b = if n * a * b == B.size x then done (B.swap x n a b) else raise value_error

  unfoldable pub byteunshuffle : B.Arr → ℕ → ℕ → Outcome B.Arr
  byteunshuffle packed typesize blocksize =
      if blocksize == 0
      then raise zero_division
      else if not (B.size packed % blocksize == 0)
      then raise value_error
      else if typesize == 0
      then raise zero_division
      else reshape_swap packed (B.size packed / blocksize) typesize (blocksize / typesize)

  unfoldable pub byteshuffle : B.Arr → ℕ → ℕ → Outcome B.Arr
  byteshuffle raw typesize blocksize =
      if blocksize == 0
      then raise zero_division
      else if not (B.size raw % blocksize == 0)
      then raise value_error
      else if typesize == 0
      then raise zero_division
      else reshape_swap raw (B.size raw / blocksize) (blocksize / typesize) typesize

  -- `Shuffle._decode_single` and `Shuffle._encode_single` on the bytes of a chunk
  unfoldable pub shuffle_decode : ℕ → B.Arr → Outcome B.Arr
  unfolding byteunshuffle
  shuffle_decode elementsize arr = byteunshuffle arr elementsize (B.size arr)

  unfoldable pub shuffle_encode : ℕ → B.Arr → Outcome B.Arr
  unfolding byteshuffle
  shuffle_encode elementsize arr = byteshuffle arr elementsize (B.size arr)

  -- What a successful shuffle says of its arguments.
  byteshuffle-done :
      (raw packed : B.Arr) (t bs : ℕ)
      → byteshuffle raw t bs ≡ done packed
      → (0 < bs)
        × (0 < t)
        × (B.size raw % bs ≡ 0)
        × (B.size raw / bs * (bs / t) * t ≡ B.size raw)
        × (packed ≡ B.swap raw (B.size raw / bs) (bs / t) t)
  unfolding byteshuffle
  byteshuffle-done raw packed t bs h = ground arith

  -- Two swaps of the same block shape.
  at-swap-swap :
      (x : B.Arr) (n a b i : ℕ)
      → n * a * b ≡ B.size x
      → i < B.size x
      → B.at (B.swap (B.swap x n a b) n b a) i ≡ B.at x i
  at-swap-swap x n a b i h hi =
      let (a-pos, b-pos) = factors_pos n a b i (omega arith) in
      let row : i / b < n * a = (div-lt_iff_lt-mul b-pos).1 (omega arith) in
      let block : i / b / a < n = (div-lt_iff_lt-mul a-pos).1 row in
      let place : (i / b / a * a + i / b % a) * b + i % b ≡ i =
        ap (λ r. r * b + i % b) (div-add-mod' (i / b) a) ∙ div-add-mod' i b in
      let back =
        B.at-swap (B.swap x n a b) n b a (i / b / a) (i % b) (i / b % a)
          (swapped_count n a b _ h ∙ sym (B.size-swap x n a b h)) block (mod-lt i b-pos)
          (mod-lt (i / b) a-pos) in
      let there =
        B.at-swap x n a b (i / b / a) (i / b % a) (i % b) h block (mod-lt (i / b) a-pos)
          (mod-lt i b-pos) in
      ap (B.at (B.swap (B.swap x n a b) n b a)) (sym place) ∙ back ∙ there ∙ ap (B.at x) place

  unshuffled :
      (packed : B.Arr) (t bs : ℕ)
      → 0 < bs
      → 0 < t
      → B.size packed % bs ≡ 0
      → B.size packed / bs * t * (bs / t) ≡ B.size packed
      → byteunshuffle packed t bs ≡ done (B.swap packed (B.size packed / bs) t (bs / t))
  unfolding byteunshuffle
  unshuffled packed t bs hb ht hm hs = ground arith

  shuffled :
      (raw : B.Arr) (t bs : ℕ)
      → 0 < bs
      → 0 < t
      → B.size raw % bs ≡ 0
      → B.size raw / bs * (bs / t) * t ≡ B.size raw
      → byteshuffle raw t bs ≡ done (B.swap raw (B.size raw / bs) (bs / t) t)
  unfolding byteshuffle
  shuffled raw t bs hb ht hm hs = ground arith

  -- What `byteshuffle` makes of an array, `byteunshuffle` with the same sizes turns back into an array
  -- of the same bytes.
  pub byteunshuffle-byteshuffle :
      (raw packed : B.Arr) (typesize blocksize : ℕ)
      → byteshuffle raw typesize blocksize ≡ done packed
      → (out : B.Arr) × (byteunshuffle packed typesize blocksize ≡ done out)
        × (B.size out ≡ B.size raw)
        × ((i : ℕ) → i < B.size raw → B.at out i ≡ B.at raw i)
  byteunshuffle-byteshuffle raw packed t bs h =
      let (hb, ht, hm, hs, e) = byteshuffle-done raw packed t bs h in
      let n = B.size raw / bs in
      let same : B.size packed ≡ B.size raw = ap B.size e ∙ B.size-swap raw n (bs / t) t hs in
      let blocks : B.size packed / bs ≡ n = ap (λ s. s / bs) same in
      let count : B.size packed / bs * t * (bs / t) ≡ B.size packed =
        ap (λ m. m * t * (bs / t)) blocks ∙ swapped_count n (bs / t) t (B.size raw) hs ∙ sym same in
      let whole = ap (λ s. s % bs) same ∙ hm in
      let swapped = ap₂ (λ x m. B.swap x m t (bs / t)) e blocks in
      (
        B.swap packed (B.size packed / bs) t (bs / t),
        unshuffled packed t bs hb ht whole count,
        B.size-swap packed (B.size packed / bs) t (bs / t) count ∙ same,
        (λ i hi. ap (λ x. B.at x i) swapped ∙ at-swap-swap raw n (bs / t) t i hs hi),
      )

  -- The filter shuffles each chunk of whole elements, and decodes what it shuffled to the chunk's bytes.
  -- The conditions: the chunk has bytes, and their number is a multiple of the element size.
  pub shuffle_decode-shuffle_encode :
      (raw : B.Arr) (n elementsize : ℕ)
      → B.size raw ≡ n * elementsize
      → 0 < B.size raw
      → (packed : B.Arr) × (shuffle_encode elementsize raw ≡ done packed)
        × (out : B.Arr) × (shuffle_decode elementsize packed ≡ done out)
        × (B.size packed ≡ B.size raw)
        × (B.size out ≡ B.size raw)
        × ((i : ℕ) → i < B.size raw → B.at out i ≡ B.at raw i)
  unfolding shuffle_encode shuffle_decode
  shuffle_decode-shuffle_encode raw n t hs pos =
      let (_, t-pos) = factors_pos 1 n t 0 (omega arith) in
      let s = B.size raw in
      let elements : s / t ≡ n = ap (λ m. m / t) hs ∙ mul-div_cancel n t-pos in
      let one : s / s ≡ 1 = div_self pos in
      let all : s / s * (s / t) * t ≡ s = ap₂ (λ a b. a * b * t) one elements ∙ omega arith in
      let encoded = shuffled raw t s pos t-pos (mod_self s) all in
      let packed = B.swap raw (s / s) (s / t) t in
      let same : B.size packed ≡ s = B.size-swap raw (s / s) (s / t) t all in
      let (out, decoded, count, agree) = byteunshuffle-byteshuffle raw packed t s encoded in
      (packed, encoded, out, ap (λ m. byteunshuffle packed t m) same ∙ decoded, same, count, agree)

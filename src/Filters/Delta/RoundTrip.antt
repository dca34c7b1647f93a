-- ===== src/Filters/Delta/RoundTrip.antt =====
-- Decoding what src/czarr/codecs/filters/delta.py encoded, and its two backends.
use czarr.Prelude.{
  ℕ, ◌+◌, ◌%◌, ◌^◌, ◌≤◌, ◌<◌, ◌≡◌, refl, sym, inl, inr, Bool, true, false, ◌&&◌, Option, none, some,
  List, [], ◌∷◌, map, length, ◌==◌, ==_iff, Every, Bool-cases, Option-cases, arith, done,
}
use native.Mathlib.Nat.{mod-eq_of_lt}
use czarr.Filters.{IntDtype, same_dtype, same_sign, convert, CupyInts, CudaCompute, sums}
use czarr.Filters.Delta.{
  Delta, ScannerKey, same_key, ScannerCache, cached, key_of, scanner_for, decode_delta_native,
  delta_encode, narrowed, working, delta_decode,
}
use czarr.Filters.Delta.Sums.{
  InRange, convert_same, convert-map, map-convert_twice, diff-Every, sums-diff,
}

same_sign-eq : (a b : Bool) → same_sign a b ≡ true → a ≡ b
same_sign-eq true b h = sym h
same_sign-eq false true h = cc
same_sign-eq false false h = refl

&&-both : (a b : Bool) → (a && b) ≡ true → (a ≡ true) × (b ≡ true)
&&-both true b h = (refl, h)
&&-both false b h = cc

same_dtype-eq : (d e : IntDtype) → same_dtype d e ≡ true → d ≡ e
same_dtype-eq d e h =
    let both = &&-both (d.bits == e.bits) (same_sign d.signed e.signed) h in
    let eb : d.bits ≡ e.bits = (==_iff d.bits e.bits).0 both.0 in
    let es = same_sign-eq d.signed e.signed both.1 in λ i. record { bits = eb i; signed = es i }

same_key-eq : (k l : ScannerKey) → same_key k l ≡ true → k ≡ l
same_key-eq k l h =
    let a =
      &&-both (same_dtype k.in_dtype l.in_dtype && (k.size == l.size))
        (same_dtype k.out_dtype l.out_dtype) h in
    let b = &&-both (same_dtype k.in_dtype l.in_dtype) (k.size == l.size) a.0 in
    let e0 = same_dtype-eq k.in_dtype l.in_dtype b.0 in
    let e1 : k.size ≡ l.size = (==_iff k.size l.size).0 b.1 in
    let e2 = same_dtype-eq k.out_dtype l.out_dtype a.1 in
    λ i. record { in_dtype = e0 i; size = e1 i; out_dtype = e2 i }

module _ (cuda : CudaCompute) where
  -- Each scanner in the cache is the one that is made for its key.
  abbrev pub IsMade : ScannerCache cuda → Type 0
  IsMade cache =
      Every (λ e. e.1 ≡ cuda.make_inclusive_scan e.0.in_dtype e.0.size e.0.out_dtype) cache

  cached-IsMade :
      (cache : ScannerCache cuda) (key : ScannerKey) (scanner : cuda.Scanner)
      → IsMade cache
      → cached cuda key cache ≡ some scanner
      → scanner ≡ cuda.make_inclusive_scan key.in_dtype key.size key.out_dtype
  cached-IsMade [] key scanner made h = cc
  cached-IsMade ((k, s) ∷ cache) key scanner made h = elim (Bool-cases (same_key key k)) [
    | inl e ↦
        let keys = same_key-eq key k e in
        let h' = rw e at h in let found : s ≡ scanner = cc in rw (sym found, keys) made.0
    | inr e ↦ let h' = rw e at h in cached-IsMade cache key scanner made.1 h'
  ]

  -- The scanner for a key, and the cache with it.
  abbrev Provides : ScannerCache cuda → IntDtype → ℕ → Type 0
  Provides cache d n =
      (cache' : ScannerCache cuda) × IsMade cache'
      × (scanner_for cuda cache d n d ≡ done (cache', cuda.make_inclusive_scan d n d))

  scanner_for-IsMade :
      (cache : ScannerCache cuda) (d : IntDtype) (n : ℕ)
      → cuda.available ≡ true
      → IsMade cache
      → Provides cache d n
  unfolding scanner_for
  scanner_for-IsMade cache d n on made =
      elim (Option-cases (cached cuda (key_of cuda d n d) cache)) [
        | inl e ↦ (
          (key_of cuda d n d, cuda.make_inclusive_scan d n d) ∷ cache,
          (refl, made),
          rw (e, on) refl,
        )
        | inr found ↦
            let same = cached-IsMade cache (key_of cuda d n d) found.0 made found.1 in
            (cache, made, rw (found.1, same) refl)
      ]

  -- `decode_delta_native` on a flat chunk gives the sums, and keeps the cache in step.
  native_sums :
      (cache : ScannerCache cuda) (d : IntDtype) (xs : List ℕ)
      → cuda.available ≡ true
      → IsMade cache
      → (cache' : ScannerCache cuda) × IsMade cache'
        × (decode_delta_native cuda cache 1 d xs none ≡ done (cache', sums d 0 xs))
  unfolding decode_delta_native
  native_sums cache d xs on made =
      let provided = scanner_for-IsMade cache d (length xs) on made in
      (provided.0, provided.1, rw (provided.2, cuda.scan-make d 0 xs) refl)

module _ (cupy : CupyInts) (cuda : CudaCompute) where
  -- The elements that `decode_delta_native` reads are those that `cp.cumsum` casts.
  working_eq :
      (delta : Delta) (source : IntDtype) (flat : List ℕ)
      → 0 < source.bits
      → Every (λ x. x < 2 ^ source.bits) flat
      → working cupy cuda delta source flat ≡ map (convert source delta.dtype) flat
  working_eq delta source flat p h = elim (Bool-cases (same_dtype source delta.dtype)) [
    | inl e ↦
        let same = same_dtype-eq source delta.dtype e in
        rw (e, sym same) (sym (convert-map source flat p h))
    | inr e ↦ rw e (cupy.astype-convert source delta.dtype flat)
  ]

  -- For integer dtypes, the two backends of the delta filter decode a chunk to the same elements, where
  -- cuda.compute is installed, the elements are words of their dtype and the scanners in the cache are
  -- made for their keys, which then holds of the cache that is left.
  pub delta_decode-agree :
      (cache : ScannerCache cuda) (d : IntDtype) (narrow : Option IntDtype) (source : IntDtype)
      (flat : List ℕ)
      → cuda.available ≡ true
      → IsMade cuda cache
      → 0 < source.bits
      → Every (λ x. x < 2 ^ source.bits) flat
      → (cache' : ScannerCache cuda) × (out : List ℕ) × IsMade cuda cache'
        × (delta_decode cupy cuda cache
              (record { dtype = d; astype = narrow; cccl = true })
              source
              flat
            ≡ done (cache', out))
        × (delta_decode cupy cuda cache
              (record { dtype = d; astype = narrow; cccl = false })
              source
              flat
            ≡ done (cache, out))
  unfolding delta_decode
  delta_decode-agree cache d narrow source flat on made p h =
      let w = working_eq (record { dtype = d; astype = narrow; cccl = true }) source flat p h in
      let native = native_sums cuda cache d (map (convert source d) flat) on made in
      (
        native.0,
        sums d 0 (map (convert source d) flat),
        native.1,
        rw w native.2,
        rw (cupy.cumsum-sums source d flat) refl,
      )

  -- The dtype of an encoded chunk.
  abbrev pub encoded_dtype : IntDtype → Option IntDtype → IntDtype
  encoded_dtype d none = d
  encoded_dtype d (some narrow) = narrow

  -- The differences lie in the range of the narrower signed dtype, where one is given.
  abbrev pub Lossless : IntDtype → Option IntDtype → List ℕ → Type 0
  Lossless d none ys = Unit
  Lossless d (some n) ys =
      (d.signed ≡ true)
      × (n.signed ≡ true)
      × 0 < n.bits
      × n.bits ≤ d.bits
      × Every (InRange d.bits n.bits) ys

  -- What the encoder stores reads back as the differences.
  narrowed_back :
      (d : IntDtype) (narrow : Option IntDtype) (ys : List ℕ)
      → 0 < d.bits
      → Every (λ y. y < 2 ^ d.bits) ys
      → Lossless d narrow ys
      → map (convert (encoded_dtype d narrow) d) (narrowed cupy cuda d narrow ys) ≡ ys
  narrowed_back d none ys p h fits = convert-map d ys p h
  narrowed_back d (some n) ys p h fits =
      rw (cupy.astype-convert d n ys) (map-convert_twice d n ys fits.0 fits.1 fits.2 fits.3 fits.4)

  -- For integer dtypes and the backend "cupy", decoding what the delta filter encoded of a chunk that is
  -- not empty and holds words of the filter's dtype gives the chunk back. An `astype` needs both dtypes
  -- signed, `astype` no wider, and the first element and the differences in its range.
  pub delta_decode-delta_encode :
      (cache : ScannerCache cuda) (d : IntDtype) (narrow : Option IntDtype) (x : ℕ) (xs : List ℕ)
      → 0 < d.bits
      → Every (λ y. y < 2 ^ d.bits) (x ∷ xs)
      → Lossless d narrow (x ∷ cupy.diff d (x ∷ xs))
      → (encoded : List ℕ) × (delta_encode cupy cuda
            (record { dtype = d; astype = narrow; cccl = false })
            d
            (x ∷ xs)
          ≡ done encoded)
        × (delta_decode cupy cuda cache
              (record { dtype = d; astype = narrow; cccl = false })
              (encoded_dtype d narrow)
              encoded
            ≡ done (cache, x ∷ xs))
  unfolding delta_encode delta_decode
  delta_decode-delta_encode cache d narrow x xs p h fits =
      let same = convert-map d (x ∷ xs) p h in
      let words : Every (λ y. y < 2 ^ d.bits) (x ∷ cupy.diff d (x ∷ xs)) =
        (h.0, diff-Every cupy d x xs) in
      let back = narrowed_back d narrow (x ∷ cupy.diff d (x ∷ xs)) p words fits in
      let first : (0 + x) % 2 ^ d.bits ≡ x =
        let e : 0 + x ≡ x = omega arith in rw e (mod-eq_of_lt h.0) in
      (
        narrowed cupy cuda d narrow (x ∷ cupy.diff d (x ∷ xs)),
        rw (cupy.astype-convert d d (x ∷ xs), same, convert_same d x p h.0) refl,
        rw
            (
              cupy.cumsum-sums (encoded_dtype d narrow) d
                  (narrowed cupy cuda d narrow (x ∷ cupy.diff d (x ∷ xs))),
              back,
              first,
              sums-diff cupy d x xs h,
            )
            refl,
      )

-- ===== src/Codecs/Frame.antt =====
-- src/czarr/codecs/base.py, and gzip.py and zlib.py of compressors: the frame that a format puts
-- round the stream of nvCOMP.
use czarr.Prelude.{
  ℕ, suc, ◌+◌, ◌-◌, ◌%◌, ◌^◌, min, ◌≡◌, refl, Bool, ◌&&◌, not, List, [], ◌∷◌, ◌++◌, arith, length,
  length-append, take, drop, take-append, drop-append, ◌==◌, if◌then◌else◌,
}
use czarr.Prelude.Int.{ℤ, pos, negsuc, sub_ℕ}
use czarr.Codecs.Checksums.{crc32, adler32, pack_le, pack_be}

abbrev pub Bytes : Type 0
Bytes = List ℕ

-- The subclasses by what their frame is: none, or that of RFC 1952 or RFC 1950.
pub data Format : Type 0 where
  unframed gzip zlib : Format

-- `_frame_strip_head`, `_frame_strip_tail`
abbrev pub strip_head : Format → ℕ
strip_head unframed = 0
strip_head gzip = 10
strip_head zlib = 2

abbrev pub strip_tail : Format → ℕ
strip_tail unframed = 0
strip_tail gzip = 8
strip_tail zlib = 4

-- `self._frame_strip_head or self._frame_strip_tail`
abbrev pub is_framed : Format → Bool
is_framed f = not (strip_head f == 0 && strip_tail f == 0)

-- `xs[start:stop]`: a negative stop counts from the end.
abbrev pub stop_at : ℕ → ℤ → ℕ
stop_at n (pos stop) = min stop n
stop_at n (negsuc k) = n - suc k

abbrev pub cut {ℓ} : {A : Type ℓ} → List A → ℕ → ℤ → List A
cut xs start stop = take (stop_at (length xs) stop - start) (drop start xs)

-- `len(compressed) - tail if tail else len(compressed)`
abbrev pub frame_end : ℕ → ℕ → ℤ
frame_end tail n = if tail == 0 then pos n else sub_ℕ n tail

-- `_unwrap_frame`
unfoldable pub unwrap_frame : Format → Bytes → Bytes
unwrap_frame f compressed =
    if strip_head f == 0 && strip_tail f == 0
    then compressed
    else cut compressed (strip_head f) (frame_end (strip_tail f) (length compressed))

-- `Gzip._wrap_frame`
abbrev pub wrap_gzip : Bytes → Bytes → Bytes
wrap_gzip compressed original =
    (0x1f ∷ 0x8b ∷ 8 ∷ 0 ∷ 0 ∷ 0 ∷ 0 ∷ 0 ∷ 0 ∷ 255 ∷ [])
    ++ (compressed ++ (pack_le (crc32 original % 2 ^ 32) ++ pack_le (length original % 2 ^ 32)))

-- `Zlib._wrap_frame`
abbrev pub wrap_zlib : Bytes → Bytes → Bytes
wrap_zlib compressed original =
    (0x78 ∷ 0x9c ∷ []) ++ (compressed ++ pack_be (adler32 original % 2 ^ 32))

-- `_wrap_frame` of the class of the format
unfoldable pub wrap_frame : Format → Bytes → Bytes → Bytes
wrap_frame unframed compressed original = compressed
wrap_frame gzip compressed original = wrap_gzip compressed original
wrap_frame zlib compressed original = wrap_zlib compressed original

stop_at-sub_ℕ : (h n t : ℕ) → stop_at (h + (n + t)) (sub_ℕ (h + (n + t)) t) - h ≡ n
stop_at-sub_ℕ h n t = ground arith

-- Cutting the header and the trailer off leaves what stands between them.
cut-append {ℓ} :
    {A : Type ℓ} (head xs tail : List A)
    → cut (head ++ (xs ++ tail)) (length head) (sub_ℕ (length (head ++ (xs ++ tail))) (length tail))
      ≡ xs
cut-append head xs tail =
    rw
      (
        length-append head (xs ++ tail),
        length-append xs tail,
        stop_at-sub_ℕ (length head) (length xs) (length tail),
        drop-append head (xs ++ tail),
      )
      (take-append xs tail)

-- What `_wrap_frame` puts round a stream, `_unwrap_frame` takes off, in every format.
pub unwrap_frame-wrap_frame :
    (f : Format) (compressed original : Bytes)
    → unwrap_frame f (wrap_frame f compressed original) ≡ compressed
unfolding unwrap_frame wrap_frame
unwrap_frame-wrap_frame unframed compressed original = refl
unwrap_frame-wrap_frame gzip compressed original =
    cut-append (0x1f ∷ 0x8b ∷ 8 ∷ 0 ∷ 0 ∷ 0 ∷ 0 ∷ 0 ∷ 0 ∷ 255 ∷ []) compressed
      (pack_le (crc32 original % 2 ^ 32) ++ pack_le (length original % 2 ^ 32))
unwrap_frame-wrap_frame zlib compressed original =
    cut-append (0x78 ∷ 0x9c ∷ []) compressed (pack_be (adler32 original % 2 ^ 32))

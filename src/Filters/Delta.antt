-- ===== src/Filters/Delta.antt =====
-- src/czarr/codecs/filters/delta.py and src/czarr/codecs/_backends/delta.py: first differences of integer
-- chunks, and their sums.
use czarr.Prelude.{
  ℕ, ◌+◌, ◌-◌, ◌%◌, ◌^◌, ◌<◌, ◌≡◌, refl, Bool, true, false, not, ◌&&◌, ◌||◌, Option, none, some,
  List, [], ◌∷◌, map, length, leb, ◌==◌, if◌then◌else◌, Outcome, done, raise, ◌>>=◌, index_error,
  value_error, module_not_found,
}
use czarr.Filters.{IntDtype, same_dtype, CupyInts, CudaCompute}
pub mod Sums
pub mod RoundTrip

-- Delta: the configuration that both directions read.
pub record Delta : Type 0 where
  pub dtype : IntDtype
  pub astype : Option IntDtype
  pub cccl : Bool

-- The key of `_SCANNER_CACHE`: `(arr_in.dtype, arr_in.size, arr_out.dtype)`.
pub record ScannerKey : Type 0 where
  pub in_dtype : IntDtype
  pub size : ℕ
  pub out_dtype : IntDtype

abbrev pub same_key : ScannerKey → ScannerKey → Bool
same_key k l =
    same_dtype k.in_dtype l.in_dtype && (k.size == l.size) && same_dtype k.out_dtype l.out_dtype

module _ (cuda : CudaCompute) where
  abbrev pub ScannerCache : Type 0
  ScannerCache = List (ScannerKey × cuda.Scanner)

  abbrev pub key_of : IntDtype → ℕ → IntDtype → ScannerKey
  key_of d n e = record { in_dtype = d; size = n; out_dtype = e }

  -- `_SCANNER_CACHE.get(key)`
  abbrev pub cached : ScannerKey → ScannerCache → Option cuda.Scanner
  cached key [] = none
  cached key ((k, scanner) ∷ cache) = if same_key key k then some scanner else cached key cache

  abbrev pub scanner_or :
      Option cuda.Scanner → ScannerKey → ScannerCache → Outcome (ScannerCache × cuda.Scanner)
  scanner_or (some scanner) key cache = done (cache, scanner)
  scanner_or none key cache =
      if cuda.available
      then done (
        (key, cuda.make_inclusive_scan key.in_dtype key.size key.out_dtype) ∷ cache,
        cuda.make_inclusive_scan key.in_dtype key.size key.out_dtype,
      )
      else raise module_not_found

  -- `_scanner_for`
  unfoldable pub scanner_for :
      ScannerCache → IntDtype → ℕ → IntDtype → Outcome (ScannerCache × cuda.Scanner)
  scanner_for cache in_dtype size out_dtype =
      let key = key_of in_dtype size out_dtype in scanner_or (cached key cache) key cache

  -- The checks of `decode_delta_native` on `out`, given by its dtype and its size, where one is given.
  abbrev pub check_out : Option (IntDtype × ℕ) → IntDtype → ℕ → Outcome IntDtype
  check_out none dtype size = done dtype
  check_out (some (out_dtype, out_size)) dtype size =
      if not (same_dtype out_dtype dtype) || not (out_size == size)
      then raise value_error
      else done out_dtype

  abbrev pub check_ndim : ℕ → Outcome Bool
  check_ndim ndim = if ndim == 1 then done true else raise value_error

  -- `decode_delta_native`. The call that asks for the temporary storage changes nothing else.
  unfoldable pub decode_delta_native :
      ScannerCache → ℕ → IntDtype → List ℕ → Option (IntDtype × ℕ) → Outcome (ScannerCache × List ℕ)
  unfolding scanner_for
  decode_delta_native cache ndim dtype encoded out = do
    checked ← check_ndim ndim
    out_dtype ← check_out out dtype (length encoded)
    made ← scanner_for cache dtype (length encoded) out_dtype
    done (made.0, cuda.scan made.1 0 encoded)

module _ (cupy : CupyInts) (cuda : CudaCompute) where
  abbrev pub first_differences : IntDtype → List ℕ → Outcome (List ℕ)
  first_differences dtype [] = raise index_error
  first_differences dtype (x ∷ xs) = done (x ∷ cupy.diff dtype (x ∷ xs))

  abbrev pub narrowed : IntDtype → Option IntDtype → List ℕ → List ℕ
  narrowed dtype none out = out
  narrowed dtype (some narrow) out = cupy.astype dtype narrow out

  -- `Delta._encode_single` on the elements `flat` of the dtype `source`. `out[0] = flat[0]` raises for
  -- an empty chunk.
  unfoldable pub delta_encode : Delta → IntDtype → List ℕ → Outcome (List ℕ)
  delta_encode delta source flat = do
    out ← first_differences delta.dtype (cupy.astype source delta.dtype flat)
    done (narrowed delta.dtype delta.astype out)

  abbrev pub working : Delta → IntDtype → List ℕ → List ℕ
  working delta source flat =
      if same_dtype source delta.dtype then flat else cupy.astype source delta.dtype flat

  -- `Delta._decode_single` on the elements `flat` of the dtype `source`
  unfoldable pub delta_decode :
      ScannerCache cuda → Delta → IntDtype → List ℕ → Outcome (ScannerCache cuda × List ℕ)
  unfolding decode_delta_native
  delta_decode cache delta source flat =
      if delta.cccl
      then decode_delta_native cuda cache 1 delta.dtype (working delta source flat) none
      else done (cache, cupy.cumsum source delta.dtype flat)

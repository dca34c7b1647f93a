-- ===== src/Decode.antt =====
-- src/czarr/lowlevel/decode.py: the decode recipe `_Chain`, and the scatter of decoded chunks into
-- the selection with `_intersect`. cupy's arrays are the parameter `NdArray`.
pub mod Pipeline
pub mod Region
pub mod Scatter
use czarr.Prelude.{
  ℕ, zero, suc, ◌+◌, ◌-◌, ◌*◌, ◌≤◌, ◌<◌, min, max, ◌≡◌, Bool, true, false, ◌&&◌, Option, none, some,
  List, [], ◌∷◌, map, ltb, leb, ◌==◌, if◌then◌else◌, Outcome, done, raise, ◌>>=◌, prod, value_error,
  not_implemented,
}
use czarr.Prelude.Int.{ℤ, pos, sub_ℕ}
use czarr.Prelude.Text.{String, str_eq}
use czarr.Selection.{Bound}
use czarr.Selection.Bounds.{InBounds}
use czarr.Plan.{Codec}

-- `_Chain`
pub record Chain : Type 0 where
  pub compressor : Option String
  pub shuffle_elementsize : Option ℕ
  pub crc32c_trailer : Bool

abbrev pub no_chain : Chain
no_chain = record { compressor = none; shuffle_elementsize = none; crc32c_trailer = false }

-- `cfg.get(key, default)`
abbrev pub or_default {ℓ} : {A : Type ℓ} → A → Option A → A
or_default default none = default
or_default default (some a) = a

-- One codec of the chain. A codec without a name has no branch.
add_codec : ℕ → Chain → Codec → Outcome Chain
add_codec itemsize chain c = elim c.name [
  | none ↦ raise not_implemented
  | some name ↦
      if str_eq name "bytes"
      then (if str_eq (or_default "little" c.endian) "little"
          then done chain
          else raise not_implemented)
      else if str_eq name "zstd"
      then done (record chain { compressor = some "Zstd" })
      else if str_eq name "blosc"
      then done (record chain { compressor = some "blosc" })
      else if str_eq name "shuffle"
      then done (record chain { shuffle_elementsize = some (or_default itemsize c.elementsize) })
      else if str_eq name "crc32c"
      then done (record chain { crc32c_trailer = true })
      else raise not_implemented
]

chain_from : ℕ → Chain → List Codec → Outcome Chain
chain_from itemsize chain [] = done chain
chain_from itemsize chain (c ∷ cs) = do
  chain' ← add_codec itemsize chain c
  chain_from itemsize chain' cs

-- `_Chain(codecs, dtype)`
unfoldable pub parse_chain : List Codec → ℕ → Outcome Chain
unfolding add_codec chain_from
parse_chain codecs itemsize = chain_from itemsize no_chain codecs

-- A slice with integer ends.
abbrev pub Slice : Type 0
Slice = ℤ × ℤ

-- One axis of `_intersect`: (source slice in the chunk, destination slice in the output).
abbrev pub intersect_axis : ℕ → ℕ → Bound → Slice × Slice
intersect_axis c size (start, stop) =
    let lo = c * size in
    let a = max lo start in
    let b = min (lo + size) stop in ((sub_ℕ a lo, sub_ℕ b lo), (sub_ℕ a start, sub_ℕ b start))

-- `_intersect`
unfoldable pub intersect : List ℕ → List ℕ → List Bound → Outcome (List Slice × List Slice)
intersect [] [] [] = done ([], [])
intersect (c ∷ coords) (size ∷ chunk_shape) (b ∷ bounds) = do
  (src, dst) ← intersect coords chunk_shape bounds
  let (s, d) = intersect_axis c size b
  done (s ∷ src, d ∷ dst)
intersect _ _ _ = raise value_error

-- The point lies in the box.
abbrev pub in_box : List ℕ → List Bound → Bool
in_box [] [] = true
in_box (x ∷ xs) (b ∷ bs) = leb b.0 x && ltb x b.1 && in_box xs bs
in_box _ _ = false

-- The point of the box `src` at the place that `xs` has in the box `dst`.
abbrev pub move : List ℕ → List Bound → List Bound → List ℕ
move (x ∷ xs) (d ∷ dst) (s ∷ src) = (s.0 + (x - d.0)) ∷ move xs dst src
move _ _ _ = []

abbrev pub widths : List Bound → List ℕ
widths = map (λ b. b.1 - b.0)

-- The slices of a box.
abbrev pub slices : List Bound → List Slice
slices = map (λ b. (pos b.0, pos b.1))

-- `int(np.prod(chunk_shape)) * plan.dtype.itemsize`
abbrev pub chunk_nbytes : List ℕ → ℕ → ℕ
chunk_nbytes chunk_shape itemsize = prod chunk_shape * itemsize

-- What the code uses of cupy's arrays of a dtype: the bytes of a decoded chunk, viewed as an array of
-- the chunk shape; element access; and `out[dst] = chunk[src]`, which for boxes of one shape inside
-- the arrays copies element by element and leaves the rest.
pub record NdArray (A : Type 0) (itemsize : ℕ) : Type 1 where
  pub Flat : Type 0
  pub Arr : Type 0
  pub size : Flat → ℕ
  pub view : Flat → List ℕ → Arr
  pub shape : Arr → List ℕ
  pub get : Arr → List ℕ → A
  pub assign : Arr → List Slice → Arr → List Slice → Arr
  pub shape-view :
      (flat : Flat) (chunk_shape : List ℕ)
      → size flat ≡ chunk_nbytes chunk_shape itemsize
      → shape (view flat chunk_shape) ≡ chunk_shape
  pub shape-assign :
      (out : Arr) (dst : List Slice) (chunk : Arr) (src : List Slice)
      → shape (assign out dst chunk src) ≡ shape out
  pub get-assign :
      (out chunk : Arr) (dst src : List Bound) (x : List ℕ)
      → InBounds dst (shape out)
      → InBounds src (shape chunk)
      → widths dst ≡ widths src
      → get (assign out (slices dst) chunk (slices src)) x
        ≡ (if in_box x dst then get chunk (move x dst src) else get out x)

module _ {A : Type 0} {itemsize : ℕ} (cupy : NdArray A itemsize) where
  open cupy use {Flat, Arr, size, view, assign}

  -- The loop that writes each decoded chunk into `out`.
  unfoldable pub scatter : List ℕ → List Bound → List (List ℕ × Flat) → Arr → Outcome Arr
  unfolding intersect
  scatter chunk_shape bounds [] out = done out
  scatter chunk_shape bounds ((coords, flat) ∷ rest) out =
      if size flat == chunk_nbytes chunk_shape itemsize
      then (do
        (src, dst) ← intersect coords chunk_shape bounds
        scatter chunk_shape bounds rest (assign out dst (view flat chunk_shape) src))
      else raise value_error

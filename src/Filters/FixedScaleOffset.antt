-- ===== src/Filters/FixedScaleOffset.antt =====
-- src/czarr/codecs/filters/fixedscaleoffset.py and src/czarr/codecs/_backends/fixedscaleoffset.py. The
-- arithmetic on arrays is cupy's and that of the kernels cuda.compute's: the parameter `AffineArrays`.
use czarr.Prelude.{
  ℕ, ◌*◌, ◌/◌, ◌≡◌, Bool, true, false, not, ◌&&◌, ◌||◌, Option, none, some, List, [], ◌∷◌, ◌==◌,
  if◌then◌else◌, Outcome, done, raise, ◌>>=◌, value_error, zero_division, module_not_found,
}
use czarr.Prelude.Text.{String, str_eq}
pub mod Kernels

-- The functions that the kernels apply to each element: `q / s + o`, `round((x - o) * s)` and
-- `(x - o) * s`.
pub data Operation (S : Type 0) : Type 0 where
  decode_op : (scale offset : S) → Operation S
  encode_op : (rounds : Bool) (scale offset : S) → Operation S

-- What the filter uses of cupy and cuda.compute on flat arrays, and of Python's floats: `float.hex` writes
-- each number in its own way. Integer dtypes are those below `np.integer`.
pub record AffineArrays : Type 1 where
  pub Dtype : Type 0
  pub Scalar : Type 0
  pub Arr : Type 0
  pub Transformer : Type 0
  pub same_dtype : Dtype → Dtype → Bool
  pub is_integer : Dtype → Bool
  pub itemsize : Dtype → ℕ
  pub hex : Scalar → String
  pub dtype : Arr → Dtype
  pub size : Arr → ℕ
  pub astype : Arr → Dtype → Arr
  pub div : Arr → Scalar → Arr
  pub add : Arr → Scalar → Arr
  pub sub : Arr → Scalar → Arr
  pub mul : Arr → Scalar → Arr
  pub around : Arr → Arr
  pub available : Bool
  pub make_unary_transform : Dtype → Dtype → Operation Scalar → Transformer
  pub transform : Transformer → Operation Scalar → Arr → Arr
  pub same_dtype-eq : (d e : Dtype) → same_dtype d e ≡ true → d ≡ e
  pub hex-eq : (s t : Scalar) → str_eq (hex s) (hex t) ≡ true → s ≡ t

module _ (cupy : AffineArrays) where
  open cupy use {Dtype, Scalar, Arr, Transformer, hex}

  -- FixedScaleOffset: its fields, and whether the backend is "cccl"
  pub record FixedScaleOffset : Type 0 where
    pub offset : Scalar
    pub scale : Scalar
    pub decoded_dtype : Dtype
    pub stored_as : Option Dtype
    pub cccl : Bool

  abbrev pub dtype_or : Option Dtype → Dtype → Dtype
  dtype_or none d = d
  dtype_or (some e) d = e

  -- `_store_dtype`
  abbrev pub store_dtype : FixedScaleOffset → Dtype
  store_dtype self = dtype_or self.stored_as self.decoded_dtype

  -- A key of `_TRANSFORM_CACHE`: the kind, with `integer_out` for encoding, the dtypes and the scalars in
  -- hexadecimal.
  pub data Kind : Type 0 where
    decoding : Kind
    encoding : Bool → Kind

  abbrev pub same_flag : Bool → Bool → Bool
  same_flag true b = b
  same_flag false b = not b

  abbrev pub same_kind : Kind → Kind → Bool
  same_kind decoding decoding = true
  same_kind (encoding a) (encoding b) = same_flag a b
  same_kind _ _ = false

  pub record TransformKey : Type 0 where
    pub kind : Kind
    pub in_dtype : Dtype
    pub out_dtype : Dtype
    pub scale_hex : String
    pub offset_hex : String

  abbrev pub same_transform_key : TransformKey → TransformKey → Bool
  same_transform_key k l =
      same_kind k.kind l.kind
      && (cupy.same_dtype k.in_dtype l.in_dtype
          && (cupy.same_dtype k.out_dtype l.out_dtype
              && (str_eq k.scale_hex l.scale_hex && str_eq k.offset_hex l.offset_hex)))

  abbrev pub TransformCache : Type 0
  TransformCache = List (TransformKey × Transformer × Operation Scalar)

  -- `_TRANSFORM_CACHE.get(key)`
  abbrev pub cached_transform :
      TransformKey → TransformCache → Option (Transformer × Operation Scalar)
  cached_transform key [] = none
  cached_transform key ((k, transformer, op) ∷ cache) =
      if same_transform_key key k then some (transformer, op) else cached_transform key cache

  abbrev pub operation : Kind → Scalar → Scalar → Operation Scalar
  operation decoding scale offset = decode_op scale offset
  operation (encoding rounds) scale offset = encode_op rounds scale offset

  abbrev pub transform_key : Kind → Dtype → Dtype → Scalar → Scalar → TransformKey
  transform_key kind d e scale offset = record {
    kind = kind;
    in_dtype = d;
    out_dtype = e;
    scale_hex = hex scale;
    offset_hex = hex offset;
  }

  abbrev pub made_or :
      Option (Transformer × Operation Scalar)
      → TransformKey
      → Operation Scalar
      → TransformCache
      → Outcome (TransformCache × Transformer × Operation Scalar)
  made_or (some (transformer, op')) key op cache = done (cache, transformer, op')
  made_or none key op cache =
      if cupy.available
      then done (
        (key, cupy.make_unary_transform key.in_dtype key.out_dtype op, op) ∷ cache,
        cupy.make_unary_transform key.in_dtype key.out_dtype op,
        op,
      )
      else raise module_not_found

  -- `_make_decoder` and `_make_encoder`
  unfoldable pub make_transform :
      TransformCache
      → Kind
      → Dtype
      → Dtype
      → Scalar
      → Scalar
      → Outcome (TransformCache × Transformer × Operation Scalar)
  make_transform cache kind d e scale offset =
      let key = transform_key kind d e scale offset in
      made_or (cached_transform key cache) key (operation kind scale offset) cache

  -- The checks of the native functions: the dimensions of the input, and the dtype and size of `out`,
  -- where it is given.
  abbrev pub check_flat : ℕ → Outcome Bool
  check_flat ndim = if ndim == 1 then done true else raise value_error

  abbrev pub check_buffer : Option (Dtype × ℕ) → Dtype → ℕ → Outcome Dtype
  check_buffer none d n = done d
  check_buffer (some (e, m)) d n =
      if not (cupy.same_dtype e d) || not (m == n) then raise value_error else done e

  abbrev pub promoted : Arr → Dtype → Arr
  promoted x d = if cupy.same_dtype (cupy.dtype x) d then x else cupy.astype x d

  -- `decode_fso_native`
  unfoldable pub decode_fso_native :
      TransformCache
      → ℕ
      → Arr
      → Dtype
      → Scalar
      → Scalar
      → Option (Dtype × ℕ)
      → Outcome (TransformCache × Arr)
  unfolding make_transform
  decode_fso_native cache ndim encoded d scale offset out = do
    flat ← check_flat ndim
    let x = promoted encoded d in
        do
          out_dtype ← check_buffer out d (cupy.size x)
          made ← make_transform cache decoding (cupy.dtype x) out_dtype scale offset
          done (made.0, cupy.transform made.1 made.2 x)

  -- `encode_fso_native`
  unfoldable pub encode_fso_native :
      TransformCache
      → ℕ
      → Arr
      → Dtype
      → Scalar
      → Scalar
      → Option (Dtype × ℕ)
      → Outcome (TransformCache × Arr)
  unfolding make_transform
  encode_fso_native cache ndim x d scale offset out = do
    flat ← check_flat ndim
    out_dtype ← check_buffer out d (cupy.size x)
    made ← make_transform cache (encoding (cupy.is_integer d)) (cupy.dtype x) out_dtype scale offset
    done (made.0, cupy.transform made.1 made.2 x)

  -- `FixedScaleOffset._decode_single` on the flat chunk
  unfoldable pub fso_decode :
      TransformCache → FixedScaleOffset → Arr → Outcome (TransformCache × Arr)
  unfolding decode_fso_native
  fso_decode cache self flat =
      if self.cccl
      then decode_fso_native cache 1 flat self.decoded_dtype self.scale self.offset none
      else done
          (cache, cupy.add (cupy.div (cupy.astype flat self.decoded_dtype) self.scale) self.offset)

  abbrev pub rounded_for : Dtype → Arr → Arr
  rounded_for d q = if cupy.is_integer d then cupy.around q else q

  -- `FixedScaleOffset._encode_single` on the flat chunk
  unfoldable pub fso_encode :
      TransformCache → FixedScaleOffset → Arr → Outcome (TransformCache × Arr)
  unfolding encode_fso_native
  fso_encode cache self flat =
      if self.cccl
      then encode_fso_native cache 1 flat (store_dtype self) self.scale self.offset none
      else done (
        cache,
        cupy.astype
            (rounded_for (store_dtype self) (cupy.mul (cupy.sub flat self.offset) self.scale))
            (store_dtype self),
      )

  abbrev pub scaled_size : ℕ → ℕ → ℕ → Outcome ℕ
  scaled_size n src item = if src == 0 then raise zero_division else done (n / src * item)

  -- `compute_encoded_size`, for a chunk of that dtype
  abbrev pub size_for : Option Dtype → ℕ → Dtype → Outcome ℕ
  size_for none n source = done n
  size_for (some d) n source = scaled_size n (cupy.itemsize source) (cupy.itemsize d)

  -- `compute_encoded_size`, for a chunk of the dtype `source`
  abbrev pub compute_encoded_size : FixedScaleOffset → ℕ → Dtype → Outcome ℕ
  compute_encoded_size self n source = size_for self.stored_as n source

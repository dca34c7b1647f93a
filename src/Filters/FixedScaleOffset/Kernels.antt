-- ===== src/Filters/FixedScaleOffset/Kernels.antt =====
-- The cache of kernels of src/czarr/codecs/_backends/fixedscaleoffset.py: what a chunk is decoded and
-- encoded to does not depend on what was cached before.
use czarr.Prelude.{
  ◌≡◌, refl, sym, ap, ◌∙◌, inl, inr, Bool, true, false, ◌&&◌, some, [], ◌∷◌, Every, Bool-cases,
  Option-cases, done,
}
use czarr.Prelude.Text.{str_eq}
use czarr.Filters.FixedScaleOffset.{
  Operation, decode_op, encode_op, AffineArrays, FixedScaleOffset, store_dtype, Kind, decoding,
  encoding, same_flag, same_kind, TransformKey, same_transform_key, TransformCache,
  cached_transform, operation, transform_key, make_transform, promoted, decode_fso_native,
  encode_fso_native, fso_decode, fso_encode,
}

&&-both : (a b : Bool) → (a && b) ≡ true → (a ≡ true) × (b ≡ true)
&&-both true b h = (refl, h)
&&-both false b h = cc

module _ (cupy : AffineArrays) where
  same_flag-eq : (a b : Bool) → same_flag cupy a b ≡ true → a ≡ b
  same_flag-eq true b h = sym h
  same_flag-eq false true h = cc
  same_flag-eq false false h = refl

  same_kind-eq : (k l : Kind cupy) → same_kind cupy k l ≡ true → k ≡ l
  same_kind-eq decoding decoding h = refl
  same_kind-eq decoding (encoding b) h = cc
  same_kind-eq (encoding a) decoding h = cc
  same_kind-eq (encoding a) (encoding b) h = ap encoding (same_flag-eq a b h)

  -- An entry has the kernel and the operation for the scalars that its key writes.
  abbrev IsEntry : TransformKey cupy × cupy.Transformer × Operation cupy.Scalar → Type 0
  IsEntry (k, transformer, op) =
      (scale offset : cupy.Scalar) × (k.scale_hex ≡ cupy.hex scale)
      × (k.offset_hex ≡ cupy.hex offset)
      × (op ≡ operation cupy k.kind scale offset)
      × (transformer ≡ cupy.make_unary_transform k.in_dtype k.out_dtype op)

  abbrev pub IsMade : TransformCache cupy → Type 0
  IsMade cache = Every IsEntry cache

  -- What is found for a key is what would be made for it.
  entry-eq :
      (kind : Kind cupy) (d e : cupy.Dtype) (scale offset : cupy.Scalar) (k : TransformKey cupy)
      (t : cupy.Transformer) (op : Operation cupy.Scalar)
      → same_transform_key cupy (transform_key cupy kind d e scale offset) k ≡ true
      → IsEntry (k, t, op)
      → (op ≡ operation cupy kind scale offset)
        × (t ≡ cupy.make_unary_transform d e (operation cupy kind scale offset))
  entry-eq kind d e scale offset k t op h (s, o, hs, ho, hop, ht) =
      let a = &&-both (same_kind cupy kind k.kind) _ h in
      let b = &&-both (cupy.same_dtype d k.in_dtype) _ a.1 in
      let c = &&-both (cupy.same_dtype e k.out_dtype) _ b.1 in
      let f = &&-both (str_eq (cupy.hex scale) k.scale_hex) _ c.1 in
      let kinds = same_kind-eq kind k.kind a.0 in
      let ins = cupy.same_dtype-eq d k.in_dtype b.0 in
      let outs = cupy.same_dtype-eq e k.out_dtype c.0 in
      let scales : scale ≡ s = cupy.hex-eq scale s (rw (sym hs) f.0) in
      let offsets : offset ≡ o = cupy.hex-eq offset o (rw (sym ho) f.1) in
      let ops : op ≡ operation cupy kind scale offset = rw (kinds, scales, offsets) hop in
      (ops, rw (ins, outs, sym ops) ht)

  cached_transform-IsMade :
      (cache : TransformCache cupy) (kind : Kind cupy) (d e : cupy.Dtype)
      (scale offset : cupy.Scalar) (t : cupy.Transformer) (op : Operation cupy.Scalar)
      → IsMade cache
      → cached_transform cupy (transform_key cupy kind d e scale offset) cache ≡ some (t, op)
      → (op ≡ operation cupy kind scale offset)
        × (t ≡ cupy.make_unary_transform d e (operation cupy kind scale offset))
  cached_transform-IsMade [] kind d e scale offset t op made h = cc
  cached_transform-IsMade ((k, t', op') ∷ cache) kind d e scale offset t op made h =
      elim (Bool-cases (same_transform_key cupy (transform_key cupy kind d e scale offset) k)) [
        | inl same ↦
            let h' = rw same at h in
            let first : t' ≡ t = cc in
            let second : op' ≡ op = cc in
            let found = entry-eq kind d e scale offset k t' op' same made.0 in
            (sym second ∙ found.0, sym first ∙ found.1)
        | inr other ↦
            let h' = rw other at h in
            cached_transform-IsMade cache kind d e scale offset t op made.1 h'
      ]

  -- The kernel for a key, and the cache with it.
  make_transform-IsMade :
      (cache : TransformCache cupy) (kind : Kind cupy) (d e : cupy.Dtype)
      (scale offset : cupy.Scalar)
      → cupy.available ≡ true
      → IsMade cache
      → (cache' : TransformCache cupy) × IsMade cache'
        × (make_transform cupy cache kind d e scale offset
            ≡ done (
              cache',
              cupy.make_unary_transform d e (operation cupy kind scale offset),
              operation cupy kind scale offset,
            ))
  unfolding make_transform
  make_transform-IsMade cache kind d e scale offset on made =
      let key = transform_key cupy kind d e scale offset in
      let op = operation cupy kind scale offset in
      elim (Option-cases (cached_transform cupy key cache)) [
        | inl missing ↦ (
          (key, cupy.make_unary_transform d e op, op) ∷ cache,
          ((scale, offset, refl, refl, refl, refl), made),
          rw (missing, on) refl,
        )
        | inr found ↦
            let same =
              cached_transform-IsMade cache kind d e scale offset found.0.0 found.0.1 made
                found.1 in
            (cache, made, rw (found.1, same.1, same.0) refl)
      ]

  -- With the backend "cccl", where cuda.compute is installed and each cached kernel is the one for its
  -- key, a chunk is decoded and encoded by the kernel made for its dtypes and the filter's scale and
  -- offset, whatever else was cached, and the cache that is left is again such a cache.
  pub fso_native :
      (cache : TransformCache cupy) (self : FixedScaleOffset cupy) (flat : cupy.Arr)
      → self.cccl ≡ true
      → cupy.available ≡ true
      → IsMade cache
      → ((cache' : TransformCache cupy) × IsMade cache'
          × (fso_decode cupy cache self flat
              ≡ done (
                cache',
                cupy.transform
                    (cupy.make_unary_transform
                      (cupy.dtype (promoted cupy flat self.decoded_dtype))
                      self.decoded_dtype
                      (decode_op self.scale self.offset))
                    (decode_op self.scale self.offset)
                    (promoted cupy flat self.decoded_dtype),
              )))
        × ((cache' : TransformCache cupy) × IsMade cache'
            × (fso_encode cupy cache self flat
                ≡ done (
                  cache',
                  cupy.transform
                      (cupy.make_unary_transform (cupy.dtype flat) (store_dtype cupy self) (
                        encode_op (cupy.is_integer (store_dtype cupy self)) self.scale self.offset))
                      (encode_op (cupy.is_integer (store_dtype cupy self)) self.scale self.offset)
                      flat,
                )))
  unfolding fso_decode fso_encode decode_fso_native encode_fso_native
  fso_native cache self flat native on made =
      let x = promoted cupy flat self.decoded_dtype in
      let stored = store_dtype cupy self in
      let dec =
        make_transform-IsMade cache decoding (cupy.dtype x) self.decoded_dtype self.scale
          self.offset on made in
      let enc =
        make_transform-IsMade cache (encoding (cupy.is_integer stored)) (cupy.dtype flat) stored
          self.scale self.offset on made in
      ((dec.0, dec.1, simp (native, dec.2)), (enc.0, enc.1, simp (native, enc.2)))

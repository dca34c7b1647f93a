-- ===== src/Codecs/Batch/RoundTrip.antt =====
-- A batch that was encoded decodes to the chunks that it was made of.
use czarr.Prelude.{
  ℕ, suc, ◌≡◌, refl, sym, ap, ap₂, ◌∙◌, inl, inr, Option, none, some, List, [], ◌∷◌, arith, map,
  length, if◌then◌else◌, Bool-cases, done, >>=-eq-done,
}
use czarr.Codecs.Frame.{
  Bytes, Format, unframed, gzip, zlib, is_framed, unwrap_frame, wrap_frame, unwrap_frame-wrap_frame,
}
use czarr.Codecs.Batch.{
  Buffer, Spec, Items, expected_decoded_bytes, NvCodec, to_buffer, Live, live_items, nones, put_all,
  strip_device, nv_input, wrap_output, encode_live, decode_live, encode_batch, decode_batch,
}
use czarr.Codecs.Batch.Stored.{
  payloads, stored, stored-nil, live_items-payloads, length-live_items, put_all-stored,
}

-- What an encoded batch is decoded with: each stored buffer beside the spec of its chunk.
abbrev pub respec : List (Option Buffer) → Items → Items
respec [] items = []
respec (b ∷ bs) [] = []
respec (b ∷ bs) (item ∷ items) = (b, item.1) ∷ respec bs items

-- The chunks on the side that the prototypes ask for.
abbrev pub rehomed : Items → List (Option Buffer)
rehomed [] = []
rehomed ((none, spec) ∷ items) = none ∷ rehomed items
rehomed ((some chunk, spec) ∷ items) = some (to_buffer chunk.bytes spec) ∷ rehomed items

-- Every chunk has the size that its spec gives.
abbrev pub IsSized : Items → Type 0
IsSized [] = Unit
IsSized ((none, spec) ∷ items) = IsSized items
IsSized ((some chunk, spec) ∷ items) =
    (length chunk.bytes ≡ expected_decoded_bytes spec) × IsSized items

strip_device-unwrap : (f : Format) (xs : Bytes) → strip_device f xs ≡ unwrap_frame f xs
unfolding unwrap_frame
strip_device-unwrap unframed xs = refl
strip_device-unwrap gzip xs = refl
strip_device-unwrap zlib xs = refl

unwrap_frame-output :
    (f : Format) (s original : Bytes)
    → unwrap_frame f (if is_framed f then wrap_frame f s original else s) ≡ s
unwrap_frame-output unframed s original = unfold unwrap_frame in refl
unwrap_frame-output gzip s original = unwrap_frame-wrap_frame gzip s original
unwrap_frame-output zlib s original = unwrap_frame-wrap_frame zlib s original

module _ (f : Format) (nv : NvCodec) where
  nv_input-wrap_output :
      (spec : Spec) (chunk : Buffer) (s : Bytes) → nv_input f (wrap_output f spec chunk s) ≡ s
  nv_input-wrap_output spec chunk s = elim (Bool-cases spec.is_gpu_prototype) [
    | inl gpu ↦ simp gpu (strip_device-unwrap f _ ∙ unwrap_frame-output f s chunk.bytes)
    | inr host ↦ simp host (unwrap_frame-output f s chunk.bytes)
  ]

  inputs-stored :
      (i : ℕ) (items : Items) (ss : List Bytes)
      → length ss ≡ length (payloads items)
      → map (λ l. nv_input f l.2) (live_items i (respec (stored (wrap_output f) items ss) items))
        ≡ ss
  unfolding live_items payloads stored
  inputs-stored i [] [] h = refl
  inputs-stored i [] (s ∷ ss) h = absurd (omega arith)
  inputs-stored i ((none, spec) ∷ items) ss h = inputs-stored (suc i) items ss h
  inputs-stored i ((some chunk, spec) ∷ items) [] h = absurd (omega arith)
  inputs-stored i ((some chunk, spec) ∷ items) (s ∷ ss) h =
      ap₂ ◌∷◌ (nv_input-wrap_output spec chunk s) (inputs-stored (suc i) items ss (omega arith))

  sizes-stored :
      (i : ℕ) (items : Items) (ss : List Bytes)
      → length ss ≡ length (payloads items)
      → IsSized items
      → map
          (λ l. expected_decoded_bytes l.1)
          (live_items i (respec (stored (wrap_output f) items ss) items))
        ≡ map (λ r. length r) (payloads items)
  unfolding live_items payloads stored
  sizes-stored i [] ss h k = refl
  sizes-stored i ((none, spec) ∷ items) ss h k = sizes-stored (suc i) items ss h k
  sizes-stored i ((some chunk, spec) ∷ items) [] h k = absurd (omega arith)
  sizes-stored i ((some chunk, spec) ∷ items) (s ∷ ss) h k =
      ap₂ ◌∷◌ (sym k.0) (sizes-stored (suc i) items ss (omega arith) k.1)

  payloads-stored :
      (items : Items) (ss : List Bytes)
      → length ss ≡ length (payloads items)
      → length (payloads (respec (stored (wrap_output f) items ss) items)) ≡ length (payloads items)
  unfolding payloads stored
  payloads-stored [] ss h = refl
  payloads-stored ((none, spec) ∷ items) ss h = payloads-stored items ss h
  payloads-stored ((some chunk, spec) ∷ items) [] h = absurd (omega arith)
  payloads-stored ((some chunk, spec) ∷ items) (s ∷ ss) h =
      ap suc (payloads-stored items ss (omega arith))

  stored-stored :
      (items : Items) (ss : List Bytes)
      → length ss ≡ length (payloads items)
      → stored
          (λ spec _ raw. to_buffer raw spec)
          (respec (stored (wrap_output f) items ss) items)
          (payloads items)
        ≡ rehomed items
  unfolding payloads stored
  stored-stored [] ss h = refl
  stored-stored ((none, spec) ∷ items) ss h = ap (◌∷◌ none) (stored-stored items ss h)
  stored-stored ((some chunk, spec) ∷ items) [] h = absurd (omega arith)
  stored-stored ((some chunk, spec) ∷ items) (s ∷ ss) h =
      ap (◌∷◌ (some (to_buffer chunk.bytes spec))) (stored-stored items ss (omega arith))

  -- What the batch stores, for some outputs of nvCOMP.
  Encodes : List Live → List Bytes → Type 0
  Encodes [] ss = ss ≡ []
  Encodes (l ∷ live) ss = nv.encode (map (λ x. x.2.bytes) (l ∷ live)) ≡ done ss

  encode_live-stored :
      (items : Items) (live : List Live) (out : List (Option Buffer))
      → live_items 0 items ≡ live
      → encode_live f nv items live ≡ done out
      → (ss : List Bytes) × Encodes live ss
        × (length ss ≡ length (payloads items))
        × (out ≡ stored (wrap_output f) items ss)
  unfolding encode_live Encodes
  encode_live-stored items [] out e h =
      let kept : nones items ≡ out = cc in
      (
        [],
        refl,
        sym (ap length e) ∙ length-live_items 0 items,
        sym kept ∙ sym (stored-nil (wrap_output f) items),
      )
  encode_live-stored items (l ∷ live) out e h =
      let (ss, e₁, e₂) = >>=-eq-done (nv.encode (map (λ x. x.2.bytes) (l ∷ live))) _ h in
      let same = ap (λ L. map (λ x. x.2.bytes) L) (sym e) ∙ live_items-payloads 0 items in
      let n : length ss ≡ length (payloads items) =
        nv.length-encode (map (λ x. x.2.bytes) (l ∷ live)) ss e₁ ∙ ap (λ L. length L) same in
      let placed = put_all-stored (wrap_output f) [] 0 items ss refl n in
      let both = sym e₂ ∙ ap (λ L. put_all (wrap_output f) L ss (nones items)) (sym e) ∙ placed in
      (ss, e₁, n, cc)

  Decodes : List Live → List Bytes → Type 0
  Decodes [] raws = Unit
  Decodes (l ∷ live) raws =
      nv.decode (map (λ x. nv_input f x.2) (l ∷ live))
        (map (λ x. expected_decoded_bytes x.1) (l ∷ live))
      ≡ done raws

  Decodes-payloads :
      (items : Items) (ss : List Bytes) (live live' : List Live)
      → live_items 0 items ≡ live
      → length live' ≡ length live
      → Encodes live ss
      → map (λ x. nv_input f x.2) live' ≡ ss
      → map (λ x. expected_decoded_bytes x.1) live' ≡ map (λ r. length r) (payloads items)
      → Decodes live' (payloads items)
  unfolding Decodes Encodes
  Decodes-payloads items ss live [] e n enc i s = tt
  Decodes-payloads items ss [] (l' ∷ live') e n enc i s = absurd (omega arith)
  Decodes-payloads items ss (l ∷ live) (l' ∷ live') e n enc i s =
      let same = ap (λ L. map (λ x. x.2.bytes) L) (sym e) ∙ live_items-payloads 0 items in
      let given : nv.encode (payloads items) ≡ done ss = ap nv.encode (sym same) ∙ enc in
      ap₂ nv.decode i s ∙ nv.decode-encode (payloads items) ss given

  decode_live-stored :
      (items : Items) (live : List Live) (raws : List Bytes)
      → live_items 0 items ≡ live
      → length raws ≡ length (payloads items)
      → Decodes live raws
      → decode_live f nv items live ≡ done (stored (λ spec _ raw. to_buffer raw spec) items raws)
  unfolding decode_live Decodes
  decode_live-stored items [] [] e n h = ap done (sym (stored-nil _ items))
  decode_live-stored items [] (r ∷ raws) e n h =
      let empty = ap (λ L. length L) e in absurd (omega (arith, length-live_items 0 items))
  decode_live-stored items (l ∷ live) raws e n h =
      let wrap : Spec → Buffer → Bytes → Buffer = λ spec _ raw. to_buffer raw spec in
      let placed = put_all-stored wrap [] 0 items raws refl n in
      rw h (ap (λ L. put_all wrap L raws (nones items)) (sym e) ∙ placed)

  -- Where nvCOMP encodes the batch and every chunk has the size of its spec: decoding what was
  -- stored gives the chunks back, each in its place and on the side of its prototype, and none
  -- where none was, in every format.
  pub decode_batch-encode_batch :
      (items : Items) (out : List (Option Buffer))
      → IsSized items
      → encode_batch f nv items ≡ done out
      → decode_batch f nv (respec out items) ≡ done (rehomed items)
  unfolding decode_batch encode_batch
  decode_batch-encode_batch items out sized h =
      let (ss, enc, n, o) = encode_live-stored items (live_items 0 items) out refl h in
      let items' = respec (stored (wrap_output f) items ss) items in
      let shorter : length (live_items 0 items') ≡ length (live_items 0 items) =
        length-live_items 0 items' ∙ payloads-stored items ss n ∙ sym (length-live_items 0 items) in
      let decodes =
        Decodes-payloads items ss (live_items 0 items) (live_items 0 items') refl shorter enc
          (inputs-stored 0 items ss n) (sizes-stored 0 items ss n sized) in
      rw o (
        decode_live-stored items' (live_items 0 items') (payloads items) refl
          (sym (payloads-stored items ss n)) decodes
        ∙ ap done (stored-stored items ss n))

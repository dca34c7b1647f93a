-- ===== src/Codecs/Batch.antt =====
-- src/czarr/codecs/base.py: `_batch_sync`, which codes the chunks of a batch in one call of nvCOMP, and
-- what it uses of src/czarr/codecs/_nvcomp_buffer.py. A buffer is its bytes and the side that it is on.
pub mod RoundTrip
pub mod Stored
use czarr.Prelude.{
  ℕ, zero, suc, ◌+◌, ◌*◌, ◌≡◌, Bool, true, false, ◌&&◌, Option, none, some, List, [], ◌∷◌, map,
  length, ◌==◌, if◌then◌else◌, Outcome, done, raise, ◌>>=◌, prod, value_error, index_error,
}
use czarr.Codecs.Frame.{
  Bytes, Format, strip_head, strip_tail, is_framed, frame_end, cut, unwrap_frame, wrap_frame,
}

pub record Buffer : Type 0 where
  pub is_gpu : Bool
  pub bytes : Bytes

-- What the code reads of an `ArraySpec`: `is_gpu_prototype` is of its prototype.
pub record Spec : Type 0 where
  pub shape : List ℕ
  pub item_size : ℕ
  pub is_gpu_prototype : Bool

abbrev pub Items : Type 0
Items = List (Option Buffer × Spec)

-- `_expected_decoded_bytes`
abbrev pub expected_decoded_bytes : Spec → ℕ
expected_decoded_bytes spec = prod spec.shape * spec.item_size

-- What the code uses of an `nvcomp.Codec`. Decoding takes the sizes of the output buffers, and gives
-- back what was encoded.
pub record NvCodec : Type 0 where
  pub encode : List Bytes → Outcome (List Bytes)
  pub decode : List Bytes → List ℕ → Outcome (List Bytes)
  pub length-encode :
      (raws streams : List Bytes) → encode raws ≡ done streams → length streams ≡ length raws
  pub decode-encode :
      (raws streams : List Bytes)
      → encode raws ≡ done streams
      → decode streams (map (λ r. length r) raws) ≡ done raws

-- `nvarray_to_buffer`, `device_to_buffer`
abbrev pub to_buffer : Bytes → Spec → Buffer
to_buffer bytes spec = record { is_gpu = spec.is_gpu_prototype; bytes = bytes }

-- `non_null_indices`, `specs` and `originals`, from index i on.
abbrev pub Live : Type 0
Live = ℕ × Spec × Buffer

unfoldable pub live_items : ℕ → Items → List Live
live_items i [] = []
live_items i ((none, spec) ∷ items) = live_items (suc i) items
live_items i ((some chunk, spec) ∷ items) = (i, spec, chunk) ∷ live_items (suc i) items

-- `[None] * len(items)`
abbrev pub nones : Items → List (Option Buffer)
nones = map (λ _. none)

-- `out[idx] = buf`
unfoldable pub put : ℕ → Buffer → List (Option Buffer) → Outcome (List (Option Buffer))
put idx buf [] = raise index_error
put zero buf (_ ∷ out) = done (some buf ∷ out)
put (suc idx) buf (o ∷ out) = do rest ← put idx buf out; done (o ∷ rest)

-- The loop over the outputs, `zip(..., strict=True)`.
unfoldable pub put_all :
    (Spec → Buffer → Bytes → Buffer)
    → List Live
    → List Bytes
    → List (Option Buffer)
    → Outcome (List (Option Buffer))
unfolding put
put_all wrap [] [] out = done out
put_all wrap (l ∷ live) (b ∷ streams) out = do
  out' ← put l.0 (wrap l.1 l.2 b) out
  put_all wrap live streams out'
put_all wrap _ _ out = raise value_error

-- The frame strip of a device array.
abbrev pub strip_device : Format → Bytes → Bytes
strip_device f arr =
    if is_framed f then cut arr (strip_head f) (frame_end (strip_tail f) (length arr)) else arr

-- What goes to nvCOMP of a chunk that is decoded.
abbrev pub nv_input : Format → Buffer → Bytes
nv_input f chunk = if chunk.is_gpu then strip_device f chunk.bytes else unwrap_frame f chunk.bytes

-- What is stored of a chunk that was encoded.
abbrev pub wrap_output : Format → Spec → Buffer → Bytes → Buffer
wrap_output f spec original stream =
    to_buffer (if is_framed f then wrap_frame f stream original.bytes else stream) spec

module _ (f : Format) (nv : NvCodec) where
  -- The calls of nvCOMP for the chunks that are there.
  unfoldable pub encode_live : Items → List Live → Outcome (List (Option Buffer))
  unfolding put_all
  encode_live items [] = done (nones items)
  encode_live items (l ∷ live) = do
    streams ← nv.encode (map (λ x. x.2.bytes) (l ∷ live))
    put_all (wrap_output f) (l ∷ live) streams (nones items)

  unfoldable pub decode_live : Items → List Live → Outcome (List (Option Buffer))
  unfolding put_all unwrap_frame
  decode_live items [] = done (nones items)
  decode_live items (l ∷ live) = do
    raws ←
        nv.decode (map (λ x. nv_input f x.2) (l ∷ live))
          (map (λ x. expected_decoded_bytes x.1) (l ∷ live))
    put_all (λ spec _ raw. to_buffer raw spec) (l ∷ live) raws (nones items)

  -- `_batch_sync(items, "encode")`
  unfoldable pub encode_batch : Items → Outcome (List (Option Buffer))
  unfolding encode_live live_items
  encode_batch items = encode_live items (live_items 0 items)

  -- `_batch_sync(items, "decode")`
  unfoldable pub decode_batch : Items → Outcome (List (Option Buffer))
  unfolding decode_live live_items
  decode_batch items = decode_live items (live_items 0 items)

-- ===== src/Examples/Codecs.antt =====
-- The compressors' batch with a small codec in the place of nvCOMP.
use czarr.Prelude.{
  suc, ◌≡◌, refl, sym, ap, ◌∙◌, true, false, Option, none, some, List, [], ◌∷◌, map, length, done,
}
use czarr.Codecs.Frame.{Bytes, zlib, wrap_frame}
use czarr.Codecs.Batch.{Buffer, Spec, Items, NvCodec, encode_batch, decode_batch}
use czarr.Codecs.Batch.RoundTrip.{respec, rehomed, decode_batch-encode_batch}

-- A stream is a magic byte and the raw bytes.
abbrev inflate : Bytes → Bytes
inflate [] = []
inflate (x ∷ xs) = xs

length-streams : (raws : List Bytes) → length (map (◌∷◌ 40) raws) ≡ length raws
length-streams [] = refl
length-streams (r ∷ raws) = ap suc (length-streams raws)

inflate-streams : (raws : List Bytes) → map inflate (map (◌∷◌ 40) raws) ≡ raws
inflate-streams [] = refl
inflate-streams (r ∷ raws) = ap (◌∷◌ r) (inflate-streams raws)

done-inj : (xs ys : List Bytes) → done xs ≡ done ys → xs ≡ ys
done-inj xs ys h = cc

abbrev magic : NvCodec
magic = record {
  encode = λ raws. done (map (◌∷◌ 40) raws);
  decode = λ streams sizes. done (map inflate streams);
  length-encode =
      λ raws streams h. ap (λ s. length s) (sym (done-inj _ streams h)) ∙ length-streams raws;
  decode-encode = λ raws streams h.
      ap (λ s. done (map inflate s)) (sym (done-inj _ streams h)) ∙ ap done (inflate-streams raws);
}

abbrev pair : Spec
pair = record { shape = 2 ∷ []; item_size = 1; is_gpu_prototype = true }

abbrev single : Spec
single = record { shape = []; item_size = 1; is_gpu_prototype = false }

abbrev chunks : Items
chunks =
    (some (record { is_gpu = true; bytes = 8 ∷ 9 ∷ [] }), pair)
    ∷ (none, pair)
    ∷ (some (record { is_gpu = true; bytes = 5 ∷ [] }), single)
    ∷ []

abbrev frames : List (Option Buffer)
frames =
    some (record { is_gpu = true; bytes = wrap_frame zlib (40 ∷ 8 ∷ 9 ∷ []) (8 ∷ 9 ∷ []) })
    ∷ none
    ∷ some (record { is_gpu = false; bytes = wrap_frame zlib (40 ∷ 5 ∷ []) (5 ∷ []) })
    ∷ []

frames_made : encode_batch zlib magic chunks ≡ done frames
unfolding encode_batch
frames_made = refl

decode_batch-encode_batch_example :
    decode_batch zlib magic (respec frames chunks) ≡ done (rehomed chunks)
decode_batch-encode_batch_example =
    decode_batch-encode_batch zlib magic chunks frames (refl, (refl, tt)) frames_made

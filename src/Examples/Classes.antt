-- ===== src/Examples/Classes.antt =====
-- Codec metadata and codec objects of small classes.
use czarr.Prelude.{
  ◌≡◌, ◌≢◌, refl, true, false, some, List, [], ◌∷◌, arith, done, raise, type_error, value_error,
}
use czarr.Prelude.Int.{pos}
use czarr.Codecs.Json.{null, int, str, bool, Entries, no_entries, entry, codec_config}
use czarr.Codecs.Metadata.{
  plain, policy, compute_and_verify, no_compute_no_verify, Field, metadata, to_dict, from_dict,
  Keywords,
}
use czarr.Codecs.Metadata.Names.{own_field, ans, bitcomp, zstd}
use czarr.Codecs.Metadata.RoundTrip.{from_dict-to_dict}
use czarr.Codecs.Metadata.Schemas.{Conversions, lz4_from_dict}
use czarr.Codecs.Streams.{
  no_stream, protocol, other_object, resolve_stream, NvcompModule, CodecObject, Locals, add_codec,
  set_handle, create_kwargs, get_codec, get_stream,
}
use czarr.Codecs.Streams.Threads.{fresh, Reach, stay, call, codec_step, stream_step, Reach-unshared}

-- An instance of Bitcomp on device 1, bound to a stream.
abbrev on_device : List Field
on_device =
    own_field "chunk_size" (int (pos 4096))
    ∷ record { name = "checksum_policy"; compared = true; value = policy compute_and_verify }
    ∷ own_field "device_id" (int (pos 1))
    ∷ record { name = "cuda_stream"; compared = false; value = plain (int (pos 77)) }
    ∷ own_field "algorithm_type" (int (pos 1))
    ∷ []

abbrev without_stream : List Field
without_stream =
    own_field "chunk_size" (int (pos 4096))
    ∷ record { name = "checksum_policy"; compared = true; value = policy compute_and_verify }
    ∷ own_field "device_id" (int (pos 1))
    ∷ record { name = "cuda_stream"; compared = false; value = plain null }
    ∷ own_field "algorithm_type" (int (pos 1))
    ∷ []

from_dict-to_dict_example :
    from_dict bitcomp.cls (to_dict bitcomp.cls on_device) ≡ done without_stream
from_dict-to_dict_example =
    from_dict-to_dict bitcomp.cls on_device (refl, (refl, (refl, (refl, (refl, tt)))))
      (
        refl,
        refl,
        refl,
        (refl, refl, refl, (refl, refl, refl, (refl, refl, refl, (refl, refl, refl, tt)))),
      )

-- A stream in stored metadata is accepted and bound.
stream_from_metadata :
    from_dict ans.cls (metadata "czarr.ans" (entry "cuda_stream" (int (pos 1234)) no_entries))
    ≡ done (
        own_field "chunk_size" (int (pos 65536))
        ∷ record { name = "checksum_policy"; compared = true; value = policy no_compute_no_verify }
        ∷ own_field "device_id" null
        ∷ record { name = "cuda_stream"; compared = false; value = plain (int (pos 1234)) }
        ∷ [])
unfolding from_dict
stream_from_metadata = refl

unknown_policy :
    from_dict ans.cls (metadata "czarr.ans" (entry "checksum_policy" (str "SOME") no_entries))
    ≡ raise value_error
unfolding from_dict
unknown_policy = refl

lz4_unknown :
    lz4_from_dict (metadata "lz4" (entry "level" (int (pos 1)) no_entries)) ≡ raise type_error
unfolding lz4_from_dict
lz4_unknown = refl

not_a_mapping :
    codec_config (entry "name" (str "lz4") (entry "configuration" (int (pos 1)) no_entries)) []
    ≡ raise type_error
unfolding codec_config
not_a_mapping = refl

abbrev python : Conversions
python = record { int_str = λ s. raise value_error; show = λ v. "None" }

abbrev lz4_in_blosc : Entries
lz4_in_blosc = metadata "blosc" (entry "cname" (str "lz4") (entry "clevel" (bool true) no_entries))

abbrev blosc_self : List Field
blosc_self =
    own_field "chunk_size" (int (pos 65536))
    ∷ record { name = "checksum_policy"; compared = true; value = policy no_compute_no_verify }
    ∷ own_field "device_id" null
    ∷ record { name = "cuda_stream"; compared = false; value = plain null }
    ∷ own_field "cname" (str "lz4")
    ∷ own_field "clevel" (int (pos 1))
    ∷ own_field "shuffle" (str "shuffle")
    ∷ own_field "typesize" (int (pos 4))
    ∷ own_field "blocksize" (int (pos 0))
    ∷ []

-- nvCOMP whose codecs remember their keywords, and which runs on stream 9.
abbrev remembering : NvcompModule
remembering = record { Native = Keywords; Codec = done; probe = λ k. done (pos 9) }

streams :
    (resolve_stream (protocol (pos 0) (pos 5)) ≡ done (some (pos 5)))
    × (resolve_stream (protocol (pos 1) (pos 5)) ≡ raise value_error)
    × (resolve_stream other_object ≡ raise type_error)
streams = (refl, refl, refl)

abbrev kwargs : Keywords
kwargs =
    ("algorithm", plain (str "Zstd"))
    ∷ ("bitstream_kind", plain (str "RAW"))
    ∷ ("uncomp_chunk_size", plain (int (pos 65536)))
    ∷ ("checksum_policy", plain (str "NO_COMPUTE_NO_VERIFY"))
    ∷ []

created : create_kwargs zstd zstd.cls.fields no_stream ≡ done kwargs
unfolding create_kwargs
created = refl

abbrev first : CodecObject remembering
first = record { number = 0; native = kwargs }

abbrev second : CodecObject remembering
second = record { number = 1; native = kwargs }

abbrev nothing : Locals remembering
nothing = fresh remembering zstd zstd.cls.fields no_stream

abbrev one : Locals remembering
one = add_codec remembering 0 kwargs nothing

abbrev two : Locals remembering
two = set_handle remembering 1 (pos 9) (add_codec remembering 1 kwargs one)

two-Reach : Reach remembering zstd zstd.cls.fields no_stream nothing two
two-Reach =
    call nothing one two
      (call nothing nothing one (stay nothing)
        (codec_step 0 nothing one first (unfold get_codec in refl)))
      (stream_step 1 one two (pos 9) (unfold get_stream in refl))

Reach-unshared_example : first.number ≢ second.number
Reach-unshared_example =
    Reach-unshared remembering zstd zstd.cls.fields no_stream two 0 1 first second two-Reach
      (λ e. ground arith) refl refl

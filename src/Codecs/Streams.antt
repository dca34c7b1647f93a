-- ===== src/Codecs/Streams.antt =====
-- src/czarr/codecs/base.py: the CUDA stream of a codec, and the nvCOMP codec that each thread creates for
-- it and keeps in `threading.local()`.
use czarr.Prelude.{
  ℕ, zero, suc, ◌+◌, ◌<◌, ◌≡◌, ◌≢◌, refl, Bool, true, false, Option, none, some, List, [], ◌∷◌,
  ◌++◌, ◌==◌, if◌then◌else◌, Outcome, done, raise, ◌>>=◌, type_error, value_error, attribute_error,
}
use czarr.Prelude.Int.{ℤ, pos}
use czarr.Prelude.Text.{String}
use czarr.Codecs.Json.{Json, null, int, str}
use czarr.Codecs.Metadata.{Value, plain, policy, Checksum, checksum_value, Field, Keywords}
use czarr.Codecs.Metadata.Names.{NvcompClass, algorithm_value, bitstream_value, attr, codec_kwargs}
pub mod Threads

-- What `cuda_stream` may hold: None, an int, an object whose `__cuda_stream__()` gives a version and a
-- pointer, or another object.
pub data Stream : Type 0 where
  no_stream : Stream
  raw_handle : ℤ → Stream
  protocol : ℤ → ℤ → Stream
  other_object : Stream

abbrev pub checked_version : ℤ → ℤ → Outcome (Option ℤ)
checked_version (pos zero) ptr = done (some ptr)
checked_version _ ptr = raise value_error

-- `_resolve_stream`
abbrev pub resolve_stream : Stream → Outcome (Option ℤ)
resolve_stream no_stream = done none
resolve_stream (raw_handle h) = done (some h)
resolve_stream (protocol version ptr) = checked_version version ptr
resolve_stream other_object = raise type_error

-- `self.checksum_policy.to_nvcomp()`: the nvCOMP member of the same name.
abbrev pub policy_name : Value → Outcome Value
policy_name (policy c) = done (plain (str (checksum_value c)))
policy_name (plain v) = raise attribute_error

abbrev pub device_keyword : Value → Keywords
device_keyword (plain null) = []
device_keyword v = ("device_id", v) ∷ []

abbrev pub stream_keyword : Option ℤ → Keywords
stream_keyword none = []
stream_keyword (some h) = ("cuda_stream", plain (int h)) ∷ []

-- The keyword arguments of `nvcomp.Codec` in `_create_codec`. What `kwargs.update` adds comes first, so
-- that it is found before an older value.
unfoldable pub create_kwargs : NvcompClass → List Field → Stream → Outcome Keywords
unfolding codec_kwargs
create_kwargs cls self cuda_stream = do
  chunk_size ← attr self "chunk_size"
  checksum_policy ← attr self "checksum_policy"
  member ← policy_name checksum_policy
  device_id ← attr self "device_id"
  stream_handle ← resolve_stream cuda_stream
  extra ← codec_kwargs cls.passed self
  done (
      extra
      ++ (("algorithm", plain (str (algorithm_value cls.algorithm)))
            ∷ ("bitstream_kind", plain (str (bitstream_value cls.bitstream_kind)))
            ∷ ("uncomp_chunk_size", chunk_size)
            ∷ ("checksum_policy", member)
            ∷ device_keyword device_id
          ++ stream_keyword stream_handle))

-- What the code uses of nvCOMP: its constructor, which may raise, and the stream on which a codec encodes
-- the 64 bytes of the probe.
pub record NvcompModule : Type 1 where
  pub Native : Type 0
  pub Codec : Keywords → Outcome Native
  pub probe : Native → Outcome ℤ

module _ (nvcomp : NvcompModule) where
  -- A codec object: the how-many-th one that was created, and its state.
  pub record CodecObject : Type 0 where
    pub number : ℕ
    pub native : nvcomp.Native

  -- What a thread sees in `self._thread_local`.
  pub record Slots : Type 0 where
    pub codec : Option CodecObject
    pub stream_handle : Option ℤ

  pub record Locals : Type 0 where
    pub slots : ℕ → Slots
    pub created : ℕ

  abbrev pub store_slots : ℕ → Slots → (ℕ → Slots) → ℕ → Slots
  store_slots t new slots u = if t == u then new else slots u

  abbrev pub set_slots : ℕ → Slots → Locals → Locals
  set_slots t new s = record { slots = store_slots t new s.slots; created = s.created }

  -- A codec that is new takes the next number.
  abbrev pub add_codec : ℕ → nvcomp.Native → Locals → Locals
  add_codec t native s = record {
    slots =
        store_slots t
          (record {
            codec = some (record { number = s.created; native = native });
            stream_handle = (s.slots t).stream_handle;
          })
          s.slots;
    created = suc s.created;
  }

  abbrev pub set_handle : ℕ → ℤ → Locals → Locals
  set_handle t h s = set_slots t (record { codec = (s.slots t).codec; stream_handle = some h }) s

  module _ (cls : NvcompClass) (self : List Field) (cuda_stream : Stream) where
    -- `_create_codec`
    unfoldable pub create_codec : Outcome nvcomp.Native
    unfolding create_kwargs
    create_codec = do kwargs ← create_kwargs cls self cuda_stream; nvcomp.Codec kwargs

    abbrev pub codec_or : Option CodecObject → ℕ → Locals → Outcome (Locals × CodecObject)
    codec_or (some codec) t s = done (s, codec)
    codec_or none t s = do
      native ← create_codec
      done (add_codec t native s, record { number = s.created; native = native })

    -- `_get_codec` in the thread t
    unfoldable pub get_codec : ℕ → Locals → Outcome (Locals × CodecObject)
    unfolding create_codec
    get_codec t s = codec_or (s.slots t).codec t s

    abbrev pub explicit_or : Option ℤ → ℕ → Locals → Outcome (Locals × ℤ)
    explicit_or (some explicit) t s = done (set_handle t explicit s, explicit)
    explicit_or none t s = do
      got ← get_codec t s
      handle ← nvcomp.probe got.1.native
      done (set_handle t handle got.0, handle)

    abbrev pub handle_or : Option ℤ → ℕ → Locals → Outcome (Locals × ℤ)
    handle_or (some handle) t s = done (s, handle)
    handle_or none t s = do explicit ← resolve_stream cuda_stream; explicit_or explicit t s

    -- `get_stream` in the thread t
    unfoldable pub get_stream : ℕ → Locals → Outcome (Locals × ℤ)
    unfolding get_codec
    get_stream t s = handle_or (s.slots t).stream_handle t s

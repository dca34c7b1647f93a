-- ===== src/Store/Reads.antt =====
-- What the reads of src/czarr/storage/gpu_local.py give, on every path.
use mathlib.Core.Option
use mathlib.Core.List.{append-nil}
use czarr.Prelude.{
  ℕ, zero, suc, ◌-◌, ◌<◌, ◌≤◌, min, ◌≡◌, ◌≢◌, refl, sym, ap, ◌∙◌, inl, inr, false, ◌||◌, not,
  Option, none, some, [], arith, length, length-drop, length-take, take, drop, take-append,
  take-all, take-nil, drop-all, ◌==◌, Bool-cases, done,
}
use czarr.Prelude.Text.{String}
use czarr.Plan.ShardIndex.{Bytes, Files}
use czarr.Store.{
  ByteRequest, range, offset, suffix, unsupported, resolve_byte_range, BufferClass, is_gpu_buffer,
  wanted, Device, LocalStore, GpuLocalStore, gds_read, gds_get, get,
}

module _ (dev : Device) (local : LocalStore) where
  -- What stands in the array behind the bytes that were read is cut off.
  gds_read-take :
      (content got : Bytes) (at size : ℕ)
      → dev.read content size at ≡ done got
      → gds_read dev local content (at, size)
        ≡ done (some (take (length got) (take size (drop at content))))
  unfolding gds_read
  gds_read-take content got at zero h = ap (λ b. done (some b)) (sym (take-nil (length got)))
  gds_read-take content got at (suc n) h =
      let some_bytes : (suc n == 0) ≡ false = ground arith in
      let read = dev.read-take content got (suc n) at h in
      elim (Bool-cases (length got == suc n)) [
        | inl full ↦
            let rest : drop (length got) (dev.empty (suc n)) ≡ [] =
              drop-all (length got) (dev.empty (suc n))
                (ground (arith, dev.length-empty (suc n))) in
            rw (some_bytes, h, full, rest) (ap (λ b. done (some b)) (append-nil got ∙ read))
        | inr short ↦ rw (some_bytes, h, short) (ap (λ b. done (some b)) (take-append got _ ∙ read))
      ]

  -- A read of a file returns all of the requested bytes that the file has.
  abbrev pub ReadsWhole : Bytes → Type 0
  ReadsWhole content =
      (size at : ℕ)
      → (got : Bytes) × (dev.read content size at ≡ done got)
        × (min size (length content - at) ≤ length got)

  gds_read-whole :
      (content : Bytes) (at size : ℕ)
      → ReadsWhole content
      → gds_read dev local content (at, size) ≡ done (some (take size (drop at content)))
  gds_read-whole content at size reads =
      let (got, read, whole) = reads size at in
      gds_read-take content got at size read
      ∙ ap (λ b. done (some b))
          (take-all (length got) (take size (drop at content))
            (omega (arith, length-take size (drop at content), length-drop at content)))

  -- The span that `_resolve_byte_range` gives is the wanted slice.
  resolve_byte_range-wanted :
      (content : Bytes) (request : Option ByteRequest)
      → request ≢ some unsupported
      → (at size : ℕ) × (resolve_byte_range request (length content) ≡ done (at, size))
        × (take size (drop at content) ≡ wanted request content)
  unfolding resolve_byte_range
  resolve_byte_range-wanted content none ok =
      (0, length content, refl, take-all (length content) content (omega arith))
  resolve_byte_range-wanted content (some (range start stop)) ok = (start, stop - start, refl, refl)
  resolve_byte_range-wanted content (some (offset o)) ok = (
    o,
    length content - o,
    refl,
    take-all (length content - o) (drop o content) (omega (arith, length-drop o content)),
  )
  resolve_byte_range-wanted content (some (suffix n)) ok = (
    length content - n,
    min n (length content),
    refl,
    take-all (min n (length content)) (drop (length content - n) content)
        (omega (arith, length-drop (length content - n) content)),
  )
  resolve_byte_range-wanted content (some unsupported) ok = absurd (ok refl)

  gds_get-wanted :
      (content : Bytes) (request : Option ByteRequest)
      → request ≢ some unsupported
      → ReadsWhole content
      → gds_get dev local (some content) request ≡ done (some (wanted request content))
  unfolding gds_get
  gds_get-wanted content request ok reads =
      let (at, size, span, slice) = resolve_byte_range-wanted content request ok in
      rw span (gds_read-whole content at size reads ∙ ap (λ b. done (some b)) slice)

  -- The store's read of a key, for every prototype and whether or not cuFile is there: the requested
  -- slice of the file, or none where there is no file. The conditions: the request is one of zarr's, and
  -- cuFile's reads of the file return, short only at the end of the file.
  pub get-wanted :
      (store : GpuLocalStore) (files : Files) (key : String) (prototype : BufferClass)
      (request : Option ByteRequest)
      → request ≢ some unsupported
      → ((content : Bytes) → files key ≡ some content → ReadsWhole content)
      → get dev local store files key prototype request
        ≡ done (Option.map (wanted request) (files key))
  unfolding get
  get-wanted store files key prototype request ok reads =
      elim (Bool-cases (not store.gds_available || not (is_gpu_buffer prototype))) [
        | inl host ↦ rw host (local.get-wanted files key request ok)
        | inr gpu ↦ rw gpu (gds_file (files key) reads)
      ]
    where
      gds_file :
          (file : Option Bytes)
          → ((content : Bytes) → file ≡ some content → ReadsWhole content)
          → gds_get dev local file request ≡ done (Option.map (wanted request) file)
      gds_file none reads = unfold gds_get in refl
      gds_file (some content) reads = gds_get-wanted content request ok (reads content refl)

  -- Where each of cuFile's reads returns fewer bytes than the file has in its span, if it has any, the
  -- read of the key in a GPU prototype raises nothing: it gives that many bytes of the requested slice.
  get_short :
      (store : GpuLocalStore) (files : Files) (key : String) (prototype : BufferClass)
      (request : Option ByteRequest) (content : Bytes)
      → request ≢ some unsupported
      → (not store.gds_available || not (is_gpu_buffer prototype)) ≡ false
      → files key ≡ some content
      → ((size at : ℕ)
          → (got : Bytes) × (dev.read content size at ≡ done got)
            × (0 < min size (length content - at) → length got < min size (length content - at)))
      → 0 < length (wanted request content)
      → (part : Bytes) × (get dev local store files key prototype request ≡ done (some part))
        × (length part < length (wanted request content))
        × (part ≡ take (length part) (wanted request content))
  unfolding get gds_get
  get_short store files key prototype request content ok gpu there reads some_bytes =
      let (at, size, span, slice) = resolve_byte_range-wanted content request ok in
      let (got, read, short) = reads size at in
      let slice_length : length (wanted request content) ≡ min size (length content - at) =
        ap length (sym slice)
        ∙ omega (arith, length-take size (drop at content), length-drop at content) in
      let fewer : length got < length (wanted request content) =
        omega (arith, slice_length, short (omega (arith, slice_length, some_bytes))) in
      let got_part : got ≡ take (length got) (wanted request content) =
        dev.read-take content got size at read ∙ ap (take (length got)) slice in
      (
        got,
        rw (gpu, there, span)
            (gds_read-take content got at size read
              ∙ ap (λ b. done (some b)) (sym (dev.read-take content got size at read))),
        fewer,
        got_part,
      )

-- ===== src/Store/Writes.antt =====
-- What the writes of src/czarr/storage/gpu_local.py leave in the files, and reads after them.
use mathlib.Core.Option
use czarr.Prelude.{
  ℕ, ◌≡◌, ◌≢◌, refl, sym, ap, ◌∙◌, inl, inr, ◌&&◌, ◌||◌, not, Option, some, [], arith, length,
  take-all, ◌==◌, if◌then◌else◌, Bool-cases, Outcome, done, raise,
}
use czarr.Prelude.Text.{String, str_eq}
use czarr.Plan.ShardIndex.{Bytes, Files}
use czarr.Store.{
  ByteRequest, unsupported, BufferClass, is_zarr_gpu, wanted, Device, set_file, LocalStore,
  GpuLocalStore, get, or_empty, finished, write_open, write_from, gds_set, set,
}
use czarr.Store.Reads.{ReadsWhole, get-wanted}

finished-eq-done :
    (o : Outcome ℕ) → ◌≡◌ {A = Outcome (Unit {0})} (finished o) (done tt) → (n : ℕ) × (o ≡ done n)
finished-eq-done (raise e) h = absurd (cc)
finished-eq-done (done n) h = (n, refl)

module _ (dev : Device) (local : LocalStore) where
  -- What a write leaves under its key: the value, but for an empty value that goes through cuFile, which
  -- leaves the old bytes of a file that is there.
  abbrev pub kept_value : GpuLocalStore → Files → String → BufferClass → Bytes → Bytes
  kept_value store files key class value =
      if store.gds_available && is_zarr_gpu class && (length value == 0)
      then or_empty (files key)
      else value

  -- The write of a value to a fresh file takes all of it, where it returns.
  abbrev pub WritesWhole : Bytes → Type 0
  WritesWhole value = (n : ℕ) → (dev.write [] value 0).0 ≡ done n → n ≡ length value

  write_open-whole :
      (opens : Outcome (Unit {0})) (files files' : Files) (key : String) (value : Bytes)
      → WritesWhole value
      → finished (write_open dev local opens files key value 0).0 ≡ done tt
      → (write_open dev local opens files key value 0).1 ≡ files'
      → files' ≡ set_file files key value
  write_open-whole (raise e) files files' key value whole h same = cc
  write_open-whole (done _) files files' key value whole h same =
      let (n, counted) = finished-eq-done (dev.write [] value 0).0 h in
      let stored : (dev.write [] value 0).1 ≡ value =
        dev.write-take value n counted ∙ take-all n value (omega (arith, whole n counted)) in
      sym same ∙ ap (set_file files key) stored

  gds_set-kept :
      (files files' : Files) (key : String) (value : Bytes)
      → WritesWhole value
      → gds_set dev local files key value ≡ (done tt, files')
      → files' ≡ set_file files key (if length value == 0 then or_empty (files key) else value)
  unfolding gds_set write_from
  gds_set-kept files files' key value whole h = elim (Bool-cases (length value == 0)) [
    | inl empty ↦ let h' = rw empty at h in rw empty (sym (ap (λ p. p.1) h'))
    | inr full ↦
        let h' = rw full at h in
        rw full (
          write_open-whole (dev.opens key) files files' key value whole (ap (λ p. p.0) h')
            (ap (λ p. p.1) h'))
  ]

  -- What a write that returns leaves: the kept value under its key, and the other files as they were.
  set-kept_value :
      (store : GpuLocalStore) (files files' : Files) (key : String) (class : BufferClass)
      (value : Bytes)
      → WritesWhole value
      → set dev local store files key class value ≡ (done tt, files')
      → (k : String) → files' k ≡ set_file files key (kept_value store files key class value) k
  unfolding set
  set-kept_value store files files' key class value whole h k = elim (Bool-cases store.read_only) [
    | inl locked ↦ absurd (let h' = simp locked at h in cc)
    | inr writable ↦ elim (Bool-cases (not store.gds_available || not (is_zarr_gpu class))) [
      | inl other ↦
          let h' = simp (writable, other) at h in
          let kept : kept_value store files key class value ≡ value = ground arith in
          rw kept (local.set-set_file files files' key value h' k)
      | inr gpu ↦
          let h' = simp (writable, gpu) at h in
          let kept : kept_value store files key class value
              ≡ (if length value == 0 then or_empty (files key) else value) =
            ground arith in
          rw kept (ap (λ f. f k) (gds_set-kept files files' key value whole h'))
    ]
  ]

  -- Reads after a write that returned, of any key in any prototype, for any request of zarr's: the
  -- requested slice of the written value under the key that was written, and of the old file under another
  -- key, whichever of the two ways each of them went. But an empty value of zarr's GPU class that goes
  -- through cuFile leaves the bytes of a file that stands under its key. The conditions: cuFile's reads
  -- return, short only at the end of the file, and its write, where it returns, took the whole value.
  pub get-set :
      (store : GpuLocalStore) (files files' : Files) (key k : String)
      (class prototype : BufferClass) (value : Bytes) (request : Option ByteRequest)
      → request ≢ some unsupported
      → WritesWhole value
      → ((content : Bytes) → ReadsWhole dev local content)
      → set dev local store files key class value ≡ (done tt, files')
      → get dev local store files' k prototype request
        ≡ done (
            Option.map
              (wanted request)
              (if str_eq k key then some (kept_value store files key class value) else files k))
  get-set store files files' key k class prototype value request ok whole reads h =
      get-wanted dev local store files' k prototype request ok (λ content there. reads content)
      ∙ ap (λ f. done (Option.map (wanted request) f))
          (set-kept_value store files files' key class value whole h k)

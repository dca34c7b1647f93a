-- ===== src/Store.antt =====
-- src/czarr/storage/gpu_local.py: `GPULocalStore`, which reads and writes the files of a directory
-- through cuFile, and `write_from` of src/czarr/cufile.py. A file is its bytes; zarr's `LocalStore` and
-- cuFile are the parameters `LocalStore` and `Device`. Opening the store, which makes its directory, and
-- the prototype that stands in for none are left out.
pub mod Reads
pub mod Writes
use mathlib.Core.Option
use czarr.Prelude.{
  ℕ, zero, suc, ◌+◌, ◌-◌, ◌*◌, min, ◌≡◌, ◌≢◌, refl, sym, ap, ◌∙◌, inl, inr, Bool, true, false, ◌&&◌,
  ◌||◌, not, Option, none, some, List, [], ◌∷◌, ◌++◌, arith, length, take, drop, slice, ◌==◌,
  if◌then◌else◌, Bool-cases, Outcome, done, raise, ◌>>=◌, type_error, value_error, runtime_error,
}
use czarr.Prelude.Text.{String, str_eq}
use czarr.Plan.ShardIndex.{Bytes, Files}

-- zarr's descriptors of a byte range; `unsupported` is an object of another type.
pub data ByteRequest : Type 0 where
  range : ℕ → ℕ → ByteRequest
  offset : ℕ → ByteRequest
  suffix : ℕ → ByteRequest
  unsupported : ByteRequest

-- `_resolve_byte_range`
unfoldable pub resolve_byte_range : Option ByteRequest → ℕ → Outcome (ℕ × ℕ)
resolve_byte_range none file_size = done (0, file_size)
resolve_byte_range (some (range start stop)) file_size = done (start, stop - start)
resolve_byte_range (some (offset o)) file_size = done (o, file_size - o)
resolve_byte_range (some (suffix n)) file_size = done (file_size - n, min n file_size)
resolve_byte_range (some unsupported) file_size = raise type_error

-- The classes of buffers and of prototypes' buffers: host, zarr's gpu.Buffer and CzarrGpuBuffer.
pub data BufferClass : Type 0 where
  host zarr_gpu czarr_gpu : BufferClass

-- `is_gpu_prototype`, `is_gpu_buffer`: an instance of `GPU_BUFFER_TYPES`
abbrev pub is_gpu_buffer : BufferClass → Bool
is_gpu_buffer host = false
is_gpu_buffer zarr_gpu = true
is_gpu_buffer czarr_gpu = true

-- `isinstance(value, gpu_buffer.Buffer)`
abbrev pub is_zarr_gpu : BufferClass → Bool
is_zarr_gpu host = false
is_zarr_gpu zarr_gpu = true
is_zarr_gpu czarr_gpu = false

-- What `get` promises of a file's bytes, as Python slices: all, content[start:stop], content[o:] and
-- the last n.
abbrev pub wanted : Option ByteRequest → Bytes → Bytes
wanted none content = content
wanted (some (range start stop)) content = take (stop - start) (drop start content)
wanted (some (offset o)) content = drop o content
wanted (some (suffix n)) content = drop (length content - n) content
wanted (some unsupported) content = []

-- cuFile and cupy: `read content size offset` is what a read puts in device memory, whose length is the
-- count that cuFile returns. `opens` is the outcome of opening the driver and the path for writing, and
-- `write` that of registering the file and writing it, the count, beside what stands in the file then. A
-- count may be short, at the end of a file or where the hardware fails. `empty n` is what stands in a
-- fresh array of n bytes.
pub record Device : Type 0 where
  pub read : Bytes → ℕ → ℕ → Outcome Bytes
  pub opens : String → Outcome (Unit {0})
  pub write : Bytes → Bytes → ℕ → Outcome ℕ × Bytes
  pub empty : ℕ → Bytes
  pub length-empty : (n : ℕ) → length (empty n) ≡ n
  pub read-take :
      (content got : Bytes) (size at : ℕ)
      → read content size at ≡ done got
      → got ≡ take (length got) (take size (drop at content))
  pub write-take :
      (value : Bytes) (n : ℕ) → (write [] value 0).0 ≡ done n → (write [] value 0).1 ≡ take n value

-- `dev`, its first bytes overwritten by what was read
abbrev pub fill : Bytes → Bytes → Bytes
fill dev got = got ++ drop (length got) dev

abbrev pub set_file : Files → String → Bytes → Files
set_file files key content k = if str_eq k key then some content else files k

-- zarr's `LocalStore`.
pub record LocalStore : Type 0 where
  pub get : Files → String → Option ByteRequest → Outcome (Option Bytes)
  pub set : Files → String → Bytes → Outcome (Unit {0}) × Files
  pub get-wanted :
      (files : Files) (key : String) (request : Option ByteRequest)
      → request ≢ some unsupported
      → get files key request ≡ done (Option.map (wanted request) (files key))
  pub set-set_file :
      (files files' : Files) (key : String) (value : Bytes)
      → set files key value ≡ (done tt, files')
      → (k : String) → files' k ≡ set_file files key value k

-- `GPULocalStore` beside the files below its root.
pub record GpuLocalStore : Type 0 where
  pub read_only : Bool
  pub gds_available : Bool

-- `__init__`, where `available` is what `cufile.is_available()` says.
unfoldable pub init_store : Bool → Bool → Bool → Outcome GpuLocalStore
init_store available read_only force_gpu =
    if force_gpu && not available
    then raise runtime_error
    else done (record { read_only = read_only; gds_available = available })

-- What a missing file is to `os.open` with O_CREAT.
abbrev pub or_empty : Option Bytes → Bytes
or_empty none = []
or_empty (some content) = content

-- The count of a write is not looked at.
abbrev pub finished : Outcome ℕ → Outcome (Unit {0})
finished (raise e) = raise e
finished (done n) = done tt

module _ (dev : Device) (local : LocalStore) where
  -- The read of `_gds_get_sync` behind `_resolve_byte_range`.
  unfoldable pub gds_read : Bytes → ℕ × ℕ → Outcome (Option Bytes)
  gds_read content (at, size) = if size == 0 then done (some []) else do
    got ← dev.read content size at
    let filled = fill (dev.empty size) got in
        done (some (if length got == size then filled else take (length got) filled))

  -- `_gds_get_sync`, for what `path.stat()` finds
  unfoldable pub gds_get : Option Bytes → Option ByteRequest → Outcome (Option Bytes)
  unfolding gds_read resolve_byte_range
  gds_get none request = done none
  gds_get (some content) request = do
    span ← resolve_byte_range request (length content)
    gds_read content span

  -- `GPULocalStore.get`
  unfoldable pub get :
      GpuLocalStore → Files → String → BufferClass → Option ByteRequest → Outcome (Option Bytes)
  unfolding gds_get
  get store files key prototype request =
      if not store.gds_available || not (is_gpu_buffer prototype)
      then local.get files key request
      else gds_get (files key) request

  abbrev pub write_open : Outcome (Unit {0}) → Files → String → Bytes → ℕ → Outcome ℕ × Files
  write_open (raise e) files key value at = (raise e, files)
  write_open (done _) files key value at =
      let written = dev.write (if at == 0 then [] else or_empty (files key)) value at in
      (written.0, set_file files key written.1)

  -- `write_from`, which returns cuFile's count: O_TRUNC where the offset is 0.
  unfoldable pub write_from : Files → String → Bytes → ℕ → Outcome ℕ × Files
  write_from files key value at = write_open (dev.opens key) files key value at

  -- `_gds_set_sync`: `path.touch()` makes an empty file, or leaves the one that is there.
  unfoldable pub gds_set : Files → String → Bytes → Outcome (Unit {0}) × Files
  unfolding write_from
  gds_set files key value =
      let written = write_from files key value 0 in
      if length value == 0
      then (done tt, set_file files key (or_empty (files key)))
      else (finished written.0, written.1)

  -- `GPULocalStore.set`, with `_check_writable`
  unfoldable pub set :
      GpuLocalStore → Files → String → BufferClass → Bytes → Outcome (Unit {0}) × Files
  unfolding gds_set
  set store files key class value =
      if store.read_only
      then (raise value_error, files)
      else if not store.gds_available || not (is_zarr_gpu class)
      then local.set files key value
      else gds_set files key value

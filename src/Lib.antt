-- ===== src/Lib.antt =====
-- czarr reads Zarr v3 arrays into GPU memory. This library models the parts of it that decide which
-- bytes are read and where each decoded element goes.
--
-- The parts, in the order of a read:
--   Selection   `normalize_selection` of src/czarr/lowlevel/plan.py: a basic-indexing selection to a
--               (start, stop) pair for each axis.
--   Plan        `DecodePlan` of the same file: the grid of decode units and `selected_units`. Plan.Box
--               has `Array._chunk_box` of src/czarr/core/array.py. Plan.Keys, Plan.ShardIndex and
--               Plan.Ranges have `chunk_key`, `_shard_index` and `ranges`: which files are read and
--               where. A store is a function from keys to bytes; the plan's cache of indexes goes in
--               and comes out of each step. Plan.Metadata has `plan_from_metadata`, Plan.Described the
--               document of a plan.
--   PlanCache   `open_plan` of the same file: the LRU of plans. Its two sections under the lock are
--               `lookup_plan` and `store_plan`; `Step` and `Run` are the interleavings.
--   Coalesce    src/czarr/lowlevel/coalesce.py: the byte ranges of one shard file, sorted and fused
--               into windows. The loop's variables are the record `Fusing`, one round is `fuse_one`.
--   Handles     src/czarr/cufile.py: the refcounted LRU of registered file handles. Each operation
--               holds the lock, so it is one step; `Step` and `Reach` are the interleavings.
--               An object records the file that its fd was opened on. Handles.Batch has
--               `read_into_many`, Handles.Single `read_into`.
--   Driver      the rest of that file: `ensure_driver_open` as steps of threads round its lock, with
--               Driver.Settings for `configure`, `is_available` and `_close`, and Driver.Buffers for the
--               registered device buffers.
--   Io          src/czarr/lowlevel/io.py: `read` on the host, with its check for short reads.
--               Io.Device has its branch through cuFile.
--   Decode      src/czarr/lowlevel/decode.py: the codec chain, and the scatter of decoded chunks.
--               Decode.Pipeline has `_decode_sync`, from the windows that were read to the region.
--   Array       `read_array` and `decode` of the same file and the reads of src/czarr/core/array.py, which
--               compose Plan.Ranges, Io and Decode.Pipeline. Array.Wrapper has `CudaZarrArray` of
--               src/czarr/array.py; Selection.Axes has its `_int_axes`.
--   Codecs      src/czarr/codecs: Codecs.Frame has the frames of gzip and zlib on the checksums of
--               Codecs.Checksums, Codecs.Batch has `_batch_sync` of base.py. Codecs.Json has
--               `codec_config`, Codecs.Metadata the dataclasses of the codecs with `to_dict` and
--               `from_dict`, and Codecs.Streams the stream and the codec object of each thread.
--   Blosc       `_parse_header` of src/czarr/lowlevel/blosc.py, the header of a blosc chunk.
--   Filters     src/czarr/codecs/filters/delta.py and src/czarr/codecs/_backends/delta.py in
--               Filters.Delta, bitround.py of the first directory in Filters.BitRound, and both
--               fixedscaleoffset.py in Filters.FixedScaleOffset.
--   Buffers     `CzarrGpuBuffer` of src/czarr/core/buffer.py.
--   Kernels     src/czarr/kernels: Kernels.BitShuffle has the bitunshuffle kernel, Kernels.ByteShuffle
--               the byte shuffles and the filter src/czarr/codecs/filters/shuffle.py.
--   Sharding    `_coalesced_chunk_fetch` of src/czarr/codecs/sharding.py, on Coalesce.
--   Store       src/czarr/storage/gpu_local.py: the store that reads and writes files through cuFile.
--   Configure   `configure_gpu` of src/czarr/__init__.py with src/czarr/alloc.py, and Configure.Backends
--               for src/czarr/codecs/_backend.py. Dictionaries are objects of a heap.
-- Prelude has the shared lists, tests, integers and the result type; an exception is `raise` with its
-- class. Examples runs the model and applies each theorem to a concrete input.
--
-- Numbers: Python's integers are unbounded; sizes, offsets and coordinates are natural numbers, and
-- where the source subtracts or takes a negative argument the model uses `ℤ`. No loop needs fuel: each
-- recurs on the list that the source iterates over, and `while len(cache) > cap` on the cache. Only
-- the decimal digits of a coordinate c are written on fuel, c + 1 steps, each of which divides by 10.
--
-- Parameters: cupy's arrays are the record `NdArray` of Decode, with the laws of views, element
-- access and slice assignment that the code relies on. numpy's parse of a shard index is the
-- record `NdIndex`. What the operating system reports on a file, and whether cuFile registers it,
-- are arguments of `acquire`. nvCOMP's codec is the record `NvCodec`: decoding gives back what was
-- encoded; the decoders of a read are the record `Decoders`. cupy's transpose of bytes is
-- `ByteArray`, cuFile's reads and writes of a file are `Device`, whose counts may be short, and
-- zarr's store and shard index are `LocalStore` and `ShardIndex`, and zarr's configuration is
-- `ZarrConfig`. The filters' array operations are `CupyInts`, `CudaCompute` and `AffineArrays`,
-- nvCOMP's constructor is `NvcompModule`, and Python's conversions of values are `Conversions`.
-- zarr's own array is the record `Zarr` of Array.Wrapper. Elements of a chunk are bit patterns
-- below a power of two. The kernels' 32-bit indexes keep their wrap-around.
--
-- Not modelled: nvCOMP and cuFile transfers themselves, the blocks of blosc, floating-point
-- arithmetic, and with it the delta filter on float dtypes, of which `<f4` is its default, a file
-- that is replaced between the `os.stat` and the `os.open` of one acquisition, and the benchmarks
-- and profiling, which are no part of the library's results.
pub mod Array
pub mod Blosc
pub mod Buffers
pub mod Coalesce
pub mod Codecs
pub mod Configure
pub mod Decode
pub mod Driver
pub mod Examples
pub mod Filters
pub mod Handles
pub mod Io
pub mod Kernels
pub mod Plan
pub mod PlanCache
pub mod Prelude
pub mod Selection
pub mod Sharding
pub mod Store

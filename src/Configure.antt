-- ===== src/Configure.antt =====
-- src/czarr/__init__.py: `configure_gpu` and the token that it returns, with the map of backend overrides
-- of src/czarr/codecs/_backend.py and the allocator hook of src/czarr/alloc.py. Dictionaries are objects
-- of a heap, since `set_backend_overrides` changes one in place.
pub mod Backends
pub mod Restore
use czarr.Prelude.{
  ℕ, zero, suc, ◌+◌, ◌*◌, ◌-◌, ◌^◌, ◌≡◌, Bool, true, false, ◌||◌, Option, none, some, List, [], ◌∷◌,
  ◌++◌, ◌==◌, if◌then◌else◌, Outcome, done, raise, value_error,
}
use czarr.Prelude.Text.{String, str_eq}

-- A dictionary from codec names to backends.
abbrev pub Mapping : Type 0
Mapping = String → Option String

abbrev pub or_else {ℓ} : {A : Type ℓ} → Option A → Option A → Option A
or_else none o = o
or_else (some a) o = some a

-- The values of zarr's configuration that are set.
pub data Value : Type 0 where
  number : ℕ → Value
  name : String → Value

abbrev pub Settings : Type 0
Settings = List (String × Value)

-- The value that a dictionary of settings has for a key: the one that was put in last.
abbrev pub last_of : String → Settings → Option Value
last_of key [] = none
last_of key ((k, v) ∷ settings) =
    or_else (last_of key settings) (if str_eq k key then some v else none)

abbrev pub is_set : String → Settings → Bool
is_set key [] = false
is_set key ((k, v) ∷ settings) = str_eq k key || is_set key settings

-- `zarr.config`: `set` applies settings and gives a token; the token's exit puts the keys that were set
-- back to what they were, and leaves the others.
pub record ZarrConfig : Type 1 where
  pub Config : Type 0
  pub Token : Type 0
  pub lookup : Config → String → Option Value
  pub set : Config → Settings → Config × Token
  pub exit : Token → Config → Config
  pub lookup-set :
      (c : Config) (settings : Settings) (key : String)
      → lookup (set c settings).0 key ≡ or_else (last_of key settings) (lookup c key)
  pub lookup-exit :
      (c c' : Config) (settings : Settings) (key : String)
      → lookup (exit (set c settings).1 c') key
        ≡ (if is_set key settings then lookup c key else lookup c' key)

-- The arguments of `configure_gpu`: the size of the pool in bytes, and the dictionary of overrides as
-- an object.
pub record Options : Type 0 where
  pub batch_size : Option ℕ
  pub async_concurrency : ℕ
  pub rmm_pool_bytes : Option ℕ
  pub pipeline : Bool
  pub codec_backend_overrides : Option ℕ

-- `sys.maxsize`
abbrev pub maxsize : ℕ
maxsize = 2 ^ 63 - 1

abbrev pub or_maxsize : Option ℕ → ℕ
or_maxsize none = maxsize
or_maxsize (some n) = n

-- The loop over the codec classes: the id and the class of each.
abbrev pub codec_settings : Settings
codec_settings =
    ("codecs.zstd", name "czarr.codecs.compressors.zstd.Zstd")
    ∷ ("codecs.lz4", name "czarr.codecs.compressors.lz4.LZ4")
    ∷ ("codecs.gzip", name "czarr.codecs.compressors.gzip.Gzip")
    ∷ ("codecs.zlib", name "czarr.codecs.compressors.zlib.Zlib")
    ∷ ("codecs.blosc", name "czarr.codecs.compressors.blosc.Blosc")
    ∷ ("codecs.shuffle", name "czarr.codecs.filters.shuffle.Shuffle")
    ∷ ("codecs.delta", name "czarr.codecs.filters.delta.Delta")
    ∷ ("codecs.fixedscaleoffset", name "czarr.codecs.filters.fixedscaleoffset.FixedScaleOffset")
    ∷ ("codecs.bitround", name "czarr.codecs.filters.bitround.BitRound")
    ∷ ("codecs.sharding_indexed", name "czarr.codecs.sharding.CzarrShardingCodec")
    ∷ []

-- `settings`
unfoldable pub gpu_settings : Options → Settings
gpu_settings o =
    ("codec_pipeline.batch_size", number (or_maxsize o.batch_size))
    ∷ ("async.concurrency", number o.async_concurrency)
    ∷ ("buffer", name "zarr.core.buffer.gpu.Buffer")
    ∷ ("ndbuffer", name "zarr.core.buffer.gpu.NDBuffer")
    ∷ (
      "codec_pipeline.path",
      if o.pipeline
          then name "czarr.pipeline.CzarrPipeline"
          else name "zarr.core.codec_pipeline.BatchedCodecPipeline",
    )
    ∷ codec_settings

-- `_cupy_alloc` or an allocator of the user
pub data Allocator : Type 0 where
  cupy_alloc : Allocator
  custom : ℕ → Allocator

module _ (Z : ZarrConfig) where
  -- `_BACKEND_OVERRIDES` is object 0; `_registered` is of the allocator, and `pool` the size
  -- of RMM's pool, from which cupy allocates then.
  pub record Runtime : Type 0 where
    pub heap : ℕ → Mapping
    pub fresh : ℕ
    pub config : Z.Config
    pub registered : Bool
    pub allocator : Option Allocator
    pub pool : Option ℕ

  abbrev pub write : Runtime → ℕ → Mapping → Runtime
  write r i m = record r { heap = λ j. if j == i then m else r.heap j }

  -- A new dictionary.
  abbrev pub new_dict : Runtime → Mapping → ℕ × Runtime
  new_dict r m = (r.fresh, record (write r r.fresh m) { fresh = suc r.fresh })

  -- `dict(_BACKEND_OVERRIDES)`
  abbrev pub get_backend_overrides : Runtime → ℕ × Runtime
  get_backend_overrides r = new_dict r (r.heap 0)

  -- `clear`, and then `update` from what the argument holds by now.
  unfoldable pub set_backend_overrides : Runtime → ℕ → Runtime
  set_backend_overrides r overrides =
      let cleared = write r 0 (λ key. none) in
      write cleared 0 (λ key. or_else (cleared.heap overrides key) (cleared.heap 0 key))

  -- `register_nvcomp_allocator`
  unfoldable pub register_nvcomp_allocator : Runtime → Option Allocator → Runtime
  register_nvcomp_allocator r none =
      if r.registered then r else record r { allocator = some cupy_alloc; registered = true }
  register_nvcomp_allocator r (some a) = record r { allocator = some a; registered = true }

  unfoldable pub use_rmm_pool : Runtime → ℕ → Runtime
  unfolding register_nvcomp_allocator
  use_rmm_pool r size = register_nvcomp_allocator (record r { pool = some size }) none

  abbrev pub with_pool : Runtime → Option ℕ → Runtime
  with_pool r none = r
  with_pool r (some size) = use_rmm_pool r size

  -- `codec_backend_overrides or {}`: for an empty dictionary, a new one is as good.
  abbrev pub given_dict : Runtime → Option ℕ → ℕ × Runtime
  given_dict r none = new_dict r (λ key. none)
  given_dict r (some overrides) = (overrides, r)

  -- `_GpuConfigToken`
  pub record GpuConfigToken : Type 0 where
    pub config_token : Z.Token
    pub prev_overrides : ℕ

  -- `configure_gpu` in front of `zarr.config.set`
  abbrev pub set_up : Options → Runtime → ℕ × Runtime
  set_up o r =
      let (prev, r₁) = get_backend_overrides r in
      let r₂ = register_nvcomp_allocator (with_pool r₁ o.rmm_pool_bytes) none in
      let (given, r₃) = given_dict r₂ o.codec_backend_overrides in
      (prev, set_backend_overrides r₃ given)

  unfoldable pub configure_gpu : Options → Runtime → GpuConfigToken × Runtime
  unfolding set_backend_overrides register_nvcomp_allocator use_rmm_pool gpu_settings
  configure_gpu o r =
      let (prev, r') = set_up o r in
      let (config, token) = Z.set r'.config (gpu_settings o) in
      (record { config_token = token; prev_overrides = prev }, record r' { config = config })

  -- `_GpuConfigToken.__exit__`
  unfoldable pub exit_token : GpuConfigToken → Runtime → Runtime
  unfolding set_backend_overrides
  exit_token token r =
      set_backend_overrides (record r { config = Z.exit token.config_token r.config })
        token.prev_overrides

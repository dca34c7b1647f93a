-- ===== src/Examples/Configure.antt =====
-- A `with configure_gpu(...)` block over a configuration that is a function.
use czarr.Prelude.{◌≡◌, refl, arith, true, false, Option, none, some, ◌==◌, if◌then◌else◌}
use czarr.Prelude.Text.{String, str_eq}
use czarr.Configure.{
  Mapping, or_else, Value, number, Settings, last_of, is_set, ZarrConfig, Options, gpu_settings,
  Runtime, configure_gpu, exit_token,
}
use czarr.Configure.Restore.{exit_token-configure_gpu}

abbrev values : ZarrConfig
values = record {
  Config = String → Option Value;
  Token = (String → Option Value) × Settings;
  lookup = λ c key. c key;
  set = λ c settings. (λ key. or_else (last_of key settings) (c key), (c, settings));
  exit = λ token c' key. if is_set key token.1 then token.0 key else c' key;
  lookup-set = λ c settings key. refl;
  lookup-exit = λ c c' settings key. refl;
}

abbrev before : Runtime values
before = record {
  heap = λ i key. if i == 1 then (if str_eq key "delta" then some "cupy" else none) else none;
  fresh = 2;
  config = λ key. some (number 4);
  registered = false;
  allocator = none;
  pool = none;
}

abbrev options : Options
options = record {
  batch_size = none;
  async_concurrency = 32;
  rmm_pool_bytes = some 1024;
  pipeline = true;
  codec_backend_overrides = some 1;
}

exit_token-configure_gpu_example :
    ((exit_token values
          (configure_gpu values options before).0
          (configure_gpu values options before).1).heap
        0 "delta"
      ≡ none)
    × ((exit_token values
            (configure_gpu values options before).0
            (configure_gpu values options before).1).config
          "buffer"
        ≡ some (number 4))
exit_token-configure_gpu_example =
    unfold gpu_settings in
    exit_token-configure_gpu values options before (configure_gpu values options before).1 "delta"
      "buffer" (omega arith, omega arith) (omega arith) (λ c. refl)

abbrev no_overrides : Mapping
no_overrides key = none

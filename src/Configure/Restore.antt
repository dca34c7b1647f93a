-- ===== src/Configure/Restore.antt =====
-- Entering and leaving a `with configure_gpu(...)` block.
use czarr.Prelude.{
  ℕ, suc, ◌<◌, ◌≡◌, refl, ap, ◌∙◌, Bool, true, false, Option, none, some, ◌==◌, if◌then◌else◌,
  arith,
}
use czarr.Prelude.Text.{String}
use czarr.Configure.{
  Mapping, or_else, cupy_alloc, last_of, is_set, ZarrConfig, Options, gpu_settings, Runtime,
  set_backend_overrides, register_nvcomp_allocator, use_rmm_pool, with_pool, given_dict, new_dict,
  configure_gpu, exit_token,
}

or_else-none : (o : Option String) → or_else o none ≡ o
or_else-none none = refl
or_else-none (some b) = refl

-- The dictionary that the caller passes is an object that is there, and not the module's own.
abbrev pub IsPassed : Option ℕ → ℕ → Type 0
IsPassed none fresh = Unit
IsPassed (some d) fresh = (0 < d) × (d < fresh)

-- What it holds.
abbrev pub held_by : (ℕ → Mapping) → Option ℕ → Mapping
held_by heap none key = none
held_by heap (some d) key = heap d key

IsPassed-mono : (passed : Option ℕ) (n m : ℕ) → m ≡ suc n → IsPassed passed n → IsPassed passed m
IsPassed-mono none n m e ok = tt
IsPassed-mono (some d) n m e ok = (ok.0, (let k = ok.1 in omega arith))

-- A new dictionary is none that was passed.
held_by-new :
    (heap : ℕ → Mapping) (fresh : ℕ) (m : Mapping) (passed : Option ℕ) (codec : String)
    → IsPassed passed fresh
    → held_by (λ j. if j == fresh then m else heap j) passed codec ≡ held_by heap passed codec
held_by-new heap fresh m none codec ok = refl
held_by-new heap fresh m (some d) codec ok =
    let other : (d == fresh) ≡ false = (let k = ok.1 in ground arith) in rw other refl

module _ (Z : ZarrConfig) where
  -- The dictionaries, their number and the configuration of two states.
  abbrev Same : Runtime Z → Runtime Z → Type 0
  Same r t = (r.heap ≡ t.heap) × (r.fresh ≡ t.fresh) × (r.config ≡ t.config)

  register-Same : (r : Runtime Z) → Same (register_nvcomp_allocator Z r none) r
  unfolding register_nvcomp_allocator
  register-Same r = by_flag r.registered
    where
      by_flag :
          (b : Bool)
          → Same (if b then r else record r { allocator = some cupy_alloc; registered = true }) r
      by_flag true = (refl, refl, refl)
      by_flag false = (refl, refl, refl)

  -- The pool and the allocator change none of them.
  prepared-Same :
      (r : Runtime Z) (pool : Option ℕ)
      → Same (register_nvcomp_allocator Z (with_pool Z r pool) none) r
  prepared-Same r none = register-Same r
  prepared-Same r (some size) =
      let (h₁, f₁, c₁) = register-Same (use_rmm_pool Z r size) in
      let (h₂, f₂, c₂) = register-Same (record r { pool = some size }) in
      unfold use_rmm_pool in (h₁ ∙ h₂, f₁ ∙ f₂, c₁ ∙ c₂)

  -- The override map behind `codec_backend_overrides or {}`, and the other dictionaries.
  given-overrides :
      (r : Runtime Z) (passed : Option ℕ) (codec : String)
      → IsPassed passed r.fresh
      → (set_backend_overrides Z (given_dict Z r passed).1 (given_dict Z r passed).0).heap 0 codec
        ≡ held_by r.heap passed codec
  unfolding set_backend_overrides
  given-overrides r none codec ok = ground arith
  given-overrides r (some d) codec ok =
      let other : (d == 0) ≡ false = (let k = ok.0 in ground arith) in
      rw other (or_else-none (r.heap d codec))

  kept-overrides :
      (r : Runtime Z) (passed : Option ℕ) (p : ℕ) (codec : String)
      → 0 < p
      → p < r.fresh
      → (set_backend_overrides Z (given_dict Z r passed).1 (given_dict Z r passed).0).heap p codec
        ≡ r.heap p codec
  unfolding set_backend_overrides
  kept-overrides r none p codec pos old = ground arith
  kept-overrides r (some d) p codec pos old = ground arith

  -- The state in front of `set_backend_overrides`.
  prepared_new-Same :
      (o : Options) (r : Runtime Z)
      → Same
          (register_nvcomp_allocator Z
            (with_pool Z (new_dict Z r (r.heap 0)).1 o.rmm_pool_bytes)
            none)
          (new_dict Z r (r.heap 0)).1
  prepared_new-Same o r = prepared-Same (new_dict Z r (r.heap 0)).1 o.rmm_pool_bytes

  given-config : (r : Runtime Z) (passed : Option ℕ) → (given_dict Z r passed).1.config ≡ r.config
  given-config r none = refl
  given-config r (some d) = refl

  -- What holds in the block: the override map is the one that was passed, each key of zarr's
  -- configuration has its value of the settings or its old one, and an allocator is registered.
  -- The conditions: the dictionary that is passed is an object of the caller.
  configure_gpu-applies :
      (o : Options) (r : Runtime Z) (codec key : String)
      → IsPassed o.codec_backend_overrides r.fresh
      → ((configure_gpu Z o r).1.heap 0 codec ≡ held_by r.heap o.codec_backend_overrides codec)
        × (Z.lookup (configure_gpu Z o r).1.config key
            ≡ or_else (last_of key (gpu_settings o)) (Z.lookup r.config key))
  unfolding configure_gpu
  configure_gpu-applies o r codec key ok =
      let passed = o.codec_backend_overrides in
      let (h, f, c) = prepared_new-Same o r in
      (
        given-overrides _ passed codec (IsPassed-mono passed r.fresh _ f ok)
            ∙ ap (λ heap. held_by heap passed codec) h
            ∙ held_by-new r.heap r.fresh (r.heap 0) passed codec ok,
        Z.lookup-set _ (gpu_settings o) key
            ∙ ap (λ k. or_else (last_of key (gpu_settings o)) (Z.lookup k key))
                (given-config _ passed ∙ c),
      )

  -- Leaving the block, whatever happened in it to the configuration and to the override map: the override
  -- map is what it was before the block, each key that `configure_gpu` set has its value of before, and
  -- each other key keeps the value that it has by then. The conditions: the dictionary that is passed
  -- is an object of the caller, the module's own is there, and the snapshot, which only the token knows,
  -- has not changed.
  pub exit_token-configure_gpu :
      (o : Options) (r after : Runtime Z) (codec key : String)
      → IsPassed o.codec_backend_overrides r.fresh
      → 0 < r.fresh
      → ((c : String)
          → after.heap (configure_gpu Z o r).0.prev_overrides c
            ≡ (configure_gpu Z o r).1.heap (configure_gpu Z o r).0.prev_overrides c)
      → ((exit_token Z (configure_gpu Z o r).0 after).heap 0 codec ≡ r.heap 0 codec)
        × (Z.lookup (exit_token Z (configure_gpu Z o r).0 after).config key ≡ (
            if is_set key (gpu_settings o)
            then Z.lookup r.config key
            else Z.lookup after.config key))
  unfolding configure_gpu exit_token set_backend_overrides
  exit_token-configure_gpu o r after codec key ok pos snapshot =
      let passed = o.codec_backend_overrides in
      let (h, f, c) = prepared_new-Same o r in
      let own : (r.fresh == 0) ≡ false = ground arith in
      let self : (r.fresh == r.fresh) ≡ true = ground arith in
      let copied : (new_dict Z r (r.heap 0)).1.heap r.fresh codec ≡ r.heap 0 codec = rw self refl in
      (
        rw own (or_else-none (after.heap r.fresh codec))
            ∙ snapshot codec
            ∙ kept-overrides _ passed r.fresh codec pos (omega (arith, f))
            ∙ ap (λ heap. heap r.fresh codec) h
            ∙ copied,
        Z.lookup-exit _ after.config (gpu_settings o) key
            ∙ ap
                (λ k.
                  if is_set key (gpu_settings o) then Z.lookup k key else Z.lookup after.config key)
                (given-config _ passed ∙ c),
      )

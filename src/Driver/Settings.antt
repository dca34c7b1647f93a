-- ===== src/Driver/Settings.antt =====
-- src/czarr/cufile.py: `configure`, `is_available`, `set_poll_mode` and `_close` on the driver's state and
-- the cache of handles. Whether cuFile's calls return stands beside each operation.
use mathlib.Core.List.{append_assoc, append-nil}
use czarr.Prelude.{
  ℕ, ◌<◌, ◌≡◌, refl, sym, ap, ◌⊎◌, inl, inr, Bool, true, false, ◌&&◌, ◌||◌, not, Option, none, some,
  List, [], ◌∷◌, ◌++◌, arith, ◌==◌, if◌then◌else◌, Bool-cases, Outcome, done, raise, runtime_error,
  key_error, os_error,
}
use czarr.Prelude.Text.{String, str_eq}
use czarr.Handles.{Handles, clear}
use czarr.Handles.Paths.{count_value}
use czarr.Handles.Core.{count_held}
use czarr.Handles.Safety.{Reach, next, clearing, Reach-open_iff}

-- `_opened`, the cuFile parameters that are set, oldest first, and the handle cache.
pub data Setting : Type 0 where
  size_t : String → ℕ → Setting
  flag : String → Bool → Setting

pub record Cufile : Type 0 where
  pub opened : Bool
  pub settings : List Setting
  pub handles : Handles

abbrev pub mem_name : String → List String → Bool
mem_name name [] = false
mem_name name (n ∷ names) = str_eq name n || mem_name name names

-- The keys of `_SIZET_PARAMS` and of `_BOOL_PARAMS`
abbrev pub size_t_params : List String
size_t_params =
    "max_io_threads" ∷ "max_io_queue_depth" ∷ "min_io_threshold_size_kb" ∷ "max_request_parallelism"
    ∷ "max_direct_io_size_kb" ∷ "max_device_cache_size_kb" ∷ []

abbrev pub bool_params : List String
bool_params = "parallel_io" ∷ "allow_compat_mode" ∷ []

-- One knob; `bool(value)` is a test for 0.
unfoldable pub knob_setting : String × ℕ → Option Setting
knob_setting (name, value) =
    if mem_name name size_t_params
    then some (size_t name value)
    else if mem_name name bool_params
    then some (flag name (not (value == 0)))
    else none

-- One round of the loop: an unknown knob raises.
abbrev pub set_knob :
    (List Setting → Outcome (Unit {0}) × List Setting)
    → List Setting
    → Option Setting
    → Outcome (Unit {0}) × List Setting
set_knob rest settings none = (raise key_error, settings)
set_knob rest settings (some s) = rest (settings ++ s ∷ [])

-- The loop of `configure`
unfoldable pub set_knobs : List (String × ℕ) → List Setting → Outcome (Unit {0}) × List Setting
unfolding knob_setting
set_knobs [] settings = (done tt, settings)
set_knobs (knob ∷ knobs) settings =
    set_knob (λ kept. set_knobs knobs kept) settings (knob_setting knob)

abbrev pub with_settings : Cufile → Outcome (Unit {0}) × List Setting → Outcome (Unit {0}) × Cufile
with_settings s (r, settings) = (r, record s { settings = settings })

-- `configure`
unfoldable pub configure : Cufile → List (String × ℕ) → Outcome (Unit {0}) × Cufile
unfolding set_knobs
configure s knobs =
    if s.opened then (raise runtime_error, s) else with_settings s (set_knobs knobs s.settings)

-- `ensure_driver_open` of one thread, where `disabled` is `_disabled()` and `opens` the outcome of
-- `driver_open`.
unfoldable pub ensure_driver_open : Cufile → Bool → Bool → Outcome (Unit {0}) × Cufile
ensure_driver_open s disabled opens =
    if s.opened
    then (done tt, s)
    else if disabled
    then (raise runtime_error, s)
    else if opens
    then (done tt, record s { opened = true })
    else (raise os_error, s)

abbrev pub succeeded : Outcome (Unit {0}) × Cufile → Bool × Cufile
succeeded (done _, s) = (true, s)
succeeded (raise e, s) = (false, s)

-- `is_available`
unfoldable pub is_available : Cufile → Bool → Bool → Bool × Cufile
unfolding ensure_driver_open
is_available s disabled opens =
    if disabled then (false, s) else succeeded (ensure_driver_open s disabled opens)

-- `_close`: the cached handles go before the driver does, whose error is ignored.
unfoldable pub close : Cufile → Cufile
close s = if s.opened then record s { opened = false; handles = clear s.handles } else s

-- The settings of some knobs, none where one is unknown.
abbrev pub AllKnown : List (String × ℕ) → List Setting → Type 0
AllKnown [] [] = Unit
AllKnown (knob ∷ knobs) (s ∷ settings) = (knob_setting knob ≡ some s) × AllKnown knobs settings
AllKnown _ _ = ⊥

set_knobs-known :
    (kept : List Setting) (knobs rest : List (String × ℕ)) (settings : List Setting)
    (unknown : String × ℕ)
    → AllKnown knobs settings
    → knob_setting unknown ≡ none
    → (set_knobs knobs kept ≡ (done tt, kept ++ settings))
      × (set_knobs (knobs ++ unknown ∷ rest) kept ≡ (raise key_error, kept ++ settings))
unfolding set_knobs
set_knobs-known kept [] rest [] unknown known odd = rw (odd, append-nil kept) (refl, refl)
set_knobs-known kept [] rest (s ∷ settings) unknown known odd = absurd known
set_knobs-known kept (knob ∷ knobs) rest [] unknown known odd = absurd known
set_knobs-known kept (knob ∷ knobs) rest (s ∷ settings) unknown known odd =
    rw (known.0, sym (append_assoc kept (s ∷ []) settings))
      (set_knobs-known (kept ++ s ∷ []) knobs rest settings unknown known.1 odd)

-- Before the driver opens, `configure` sets every knob in front of the first unknown one, and raises
-- KeyError at that one: the knobs before it stay set. Without an unknown knob it sets them all.
configure-known :
    (s : Cufile) (knobs rest : List (String × ℕ)) (settings : List Setting) (unknown : String × ℕ)
    → s.opened ≡ false
    → AllKnown knobs settings
    → knob_setting unknown ≡ none
    → (configure s knobs ≡ (done tt, record s { settings = s.settings ++ settings }))
      × (configure s (knobs ++ unknown ∷ rest)
          ≡ (raise key_error, record s { settings = s.settings ++ settings }))
unfolding configure
configure-known s knobs rest settings unknown shut known odd =
    let (all, some_) = set_knobs-known s.settings knobs rest settings unknown known odd in
    let kept = with_settings (record s { opened = false }) in simp shut (ap kept all, ap kept some_)

-- The end of the process: where no thread reads and the driver was open, closing it leaves no handle
-- open and the driver shut, so that a second close changes nothing.
close-released :
    (s : Cufile)
    → Reach s.handles []
    → s.opened ≡ true
    → ((i : ℕ) → ((close s).handles.heap i).is_open ≡ false)
      × ((close s).opened ≡ false)
      × (close (close s) ≡ close s)
unfolding close
close-released s r e = simp e ((λ i. closed i), refl, refl)
  where
    nobody : (i : ℕ) → (0 < count_value i (clear s.handles).cache) ⊎ (0 < count_held i []) → ⊥
    nobody i (inl h) = unfold clear in (unfold count_value in omega arith)
    nobody i (inr h) = omega arith

    closed : (i : ℕ) → ((clear s.handles).heap i).is_open ≡ false
    closed i = elim (Bool-cases ((clear s.handles).heap i).is_open) [
      | inl is ↦ absurd (nobody i ((Reach-open_iff i (next r (clearing s.handles []))).0.0 is))
      | inr shut ↦ shut
    ]

-- `is_available` never raises; it says true exactly where cuFile is not disabled and the driver is open
-- or opens, and then the driver is open afterwards.
is_available_iff :
    (s : Cufile) (disabled opens : Bool)
    → ((is_available s disabled opens).0 ≡ not disabled && (s.opened || opens))
      × ((is_available s disabled opens).1.opened ≡ s.opened || not disabled && opens)
unfolding is_available ensure_driver_open
is_available_iff s disabled opens = ground arith

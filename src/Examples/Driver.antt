-- ===== src/Examples/Driver.antt =====
-- Threads that open the driver, its settings and the registered buffers.
use czarr.Prelude.{
  ℕ, ◌≤◌, ◌≡◌, refl, true, false, none, some, List, [], ◌∷◌, arith, done, raise, os_error,
}
use czarr.Prelude.Text.{String}
use czarr.Handles.{Handles}
use czarr.Handles.Safety
use czarr.Handles.{init, acquire, release}
use czarr.Driver.{finished, inside, Driver, at_start, step, Reach, initial, next}
use czarr.Driver.Once.{Reach-once}
use czarr.Driver.Progress.{solo}
use czarr.Driver.Buffers.{
  Buffers, InStep, covers, put_size, ensure_buf_registered, ensure_buf_registered-InStep,
  ensure_buf_registered_stale,
}
use czarr.Driver.Settings.{Setting, size_t, flag, Cufile, is_available}

-- Thread 0 runs to the lock, and thread 1 waits for it.
abbrev one_step : ℕ → Driver → Driver
one_step i s = step false true i s

abbrev contended : Driver
contended = one_step 1 (one_step 1 (one_step 0 (one_step 0 at_start)))

contended-Reach : Reach contended
contended-Reach =
    next false true 1 (next false true 1 (next false true 0 (next false true 0 initial)))

Reach-once_example :
    (contended.opens ≤ 1)
    × (contended.hooks ≤ 1)
    × ((i j : ℕ) → inside (contended.place i) ≡ true → inside (contended.place j) ≡ true → i ≡ j)
    × ((i : ℕ) → contended.place i ≡ finished → (contended.opened ≡ true) × (contended.opens ≡ 1))
Reach-once_example = Reach-once contended-Reach

-- Both threads through: the driver was opened once.
both : (solo false true 2 1 (solo false true 4 0 contended)).opens ≡ 1
unfolding solo step
both = refl

abbrev unregistered : Buffers
unregistered = record { table = λ p. none; native = λ p. none }

abbrev registered : Buffers
registered = record {
  table = put_size (λ p. none) 64 (some 100);
  native = put_size (λ p. none) 64 (some 100);
}

ensure_buf_registered-InStep_example :
    (after : Buffers) × (ensure_buf_registered registered 64 200 false true ≡ (done tt, after))
    × (covers (after.native 64) 200 ≡ true)
    × InStep after 65
ensure_buf_registered-InStep_example =
    ensure_buf_registered-InStep registered 64 65 200 false refl refl

ensure_buf_registered_stale_example :
    (after : Buffers) × (ensure_buf_registered registered 64 200 true false
      ≡ (raise os_error, after))
    × (ensure_buf_registered after 64 50 true true ≡ (done tt, after))
    × (after.native 64 ≡ none)
ensure_buf_registered_stale_example =
    ensure_buf_registered_stale registered 64 100 200 50 true true refl (omega arith) (omega arith)

abbrev shut : Cufile
shut = record { opened = false; settings = []; handles = init }

abbrev good : List (String × ℕ)
good = ("max_io_threads", 8) ∷ ("parallel_io", 1) ∷ []

abbrev kept : List Setting
kept = size_t "max_io_threads" 8 ∷ flag "parallel_io" true ∷ []

-- One file was read, and its handle is cached when the process ends.
abbrev cached : Handles
cached = release (acquire init "c/0" (some (1, 2, 3)) true).1 0

cached-Reach : Safety.Reach cached []
unfolding acquire
cached-Reach =
    Safety.next (Safety.next Safety.start (Safety.acquiring init [] "c/0" (some (1, 2, 3)) true)) (
      Safety.releasing (acquire init "c/0" (some (1, 2, 3)) true).1 (0 ∷ []) [] 0
        (λ j. ground arith))

abbrev running : Cufile
running = record { opened = true; settings = []; handles = cached }

unavailable : is_available shut true true ≡ (false, shut)
unfolding is_available
unavailable = refl

-- ===== src/Driver.antt =====
-- src/czarr/cufile.py: `ensure_driver_open` among threads. A thread is its place in the function; one
-- step is what it does between two places, and what is under `_lock` is several steps.
pub mod Buffers
pub mod Moves
pub mod Once
pub mod Progress
pub mod Settings
use czarr.Prelude.{
  ℕ, zero, suc, ◌+◌, ◌≤◌, ◌≡◌, refl, Bool, true, false, Option, none, some, ◌==◌, if◌then◌else◌,
}

-- `starting` and the places behind it: the test without the lock, the wait for the lock, the test under
-- it, the call of `driver_open`, `_opened = True`, `atexit.register`, the return and the error.
pub data Place : Type 0 where
  starting waiting checking opening marking hooking finished refused : Place

-- The places under the lock.
abbrev pub inside : Place → Bool
inside checking = true
inside opening = true
inside marking = true
inside hooking = true
inside _ = false

-- `_opened` and `_lock`, the successful calls of `driver_open` and `atexit.register`, and the threads.
pub record Driver : Type 0 where
  pub opened : Bool
  pub lock : Option ℕ
  pub opens : ℕ
  pub hooks : ℕ
  pub place : ℕ → Place

abbrev pub at_start : Driver
at_start = record { opened = false; lock = none; opens = 0; hooks = 0; place = λ i. starting }

abbrev pub go : Driver → ℕ → Place → Driver
go s i p = record s { place = λ j. if j == i then p else s.place j }

-- The end of the `with` block.
abbrev pub leave : Driver → ℕ → Place → Driver
leave s i p = record (go s i p) { lock = none }

-- A thread that waits stays where another one holds the lock.
abbrev pub enter : Driver → ℕ → Option ℕ → Driver
enter s i none = record (go s i checking) { lock = some i }
enter s i (some j) = s

-- One step of thread i, from its place. `disabled` is what `_disabled()` says, `opens` whether
-- `driver_open` returns. A thread that is through may call again.
abbrev pub step_from : Bool → Bool → Driver → ℕ → Place → Driver
step_from disabled opens s i starting =
    if s.opened then go s i finished else if disabled then go s i refused else go s i waiting
step_from disabled opens s i waiting = enter s i s.lock
step_from disabled opens s i checking = if s.opened then leave s i finished else go s i opening
step_from disabled opens s i opening =
    if opens then record (go s i marking) { opens = suc s.opens } else leave s i refused
step_from disabled opens s i marking = record (go s i hooking) { opened = true }
step_from disabled opens s i hooking = record (leave s i finished) { hooks = suc s.hooks }
step_from disabled opens s i finished = go s i starting
step_from disabled opens s i refused = go s i starting

unfoldable pub step : Bool → Bool → ℕ → Driver → Driver
step disabled opens i s = step_from disabled opens s i (s.place i)

-- The states that the threads reach by steps in any order.
pub data Reach : Driver → Type 0 where
  initial : Reach at_start
  next : {s : Driver} (disabled opens : Bool) (i : ℕ) → Reach s → Reach (step disabled opens i s)

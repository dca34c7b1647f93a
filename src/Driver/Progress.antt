-- ===== src/Driver/Progress.antt =====
-- No call of `ensure_driver_open` is ever stuck: whoever has the lock can run on, and then each other.
use czarr.Prelude.{ℕ, zero, suc, ◌≡◌, Bool, true, false, none}
use czarr.Driver.{Place, finished, refused, Driver, step}

-- The call has returned or raised.
abbrev pub through : Place → Bool
through finished = true
through refused = true
through _ = false

-- n steps of one thread.
unfoldable pub solo : Bool → Bool → ℕ → ℕ → Driver → Driver
unfolding step
solo disabled opens zero i s = s
solo disabled opens (suc n) i s = solo disabled opens n i (step disabled opens i s)

module _ (disabled opens : Bool) (i : ℕ) where
  -- Some steps of the thread bring it through, and leave the lock free.
  abbrev Ends : Driver → Type 0
  Ends s =
      (n : ℕ) × (through ((solo disabled opens n i s).place i) ≡ true)
      × ((solo disabled opens n i s).lock ≡ none)

-- ===== src/Handles/Single.antt =====
-- src/czarr/cufile.py: `read_into`, one read through the handle cache.
use czarr.Prelude.{ℕ, ◌≡◌, refl, false, List, [], ◌∷◌, ◌==◌, Outcome, done, raise, ◌>>=◌}
use czarr.Handles.{Handles, acquire, release}
use czarr.Handles.Batch.{
  Request, read_into_many, acquire_all, on_acquired, read_all, release_all, finish,
}

-- `cufile.read` under `try`, with the release of the handle in `finally`.
abbrev pub read_held : Request → Outcome ℕ × Handles → Outcome ℕ × Handles
read_held r (raise e, s) = (raise e, s)
read_held r (done i, s) = (r.got, release s i)

-- `read_into`, where `driver` is the outcome of `ensure_driver_open`.
unfoldable pub read_into : Outcome (Unit {0}) → Handles → Request → Outcome ℕ × Handles
read_into (raise e) s r = (raise e, s)
read_into (done _) s r = read_held r (acquire s r.path r.stat r.registers)

-- What a batch of one request gives for the count of its read.
abbrev pub single : Outcome ℕ × Handles → Outcome (List ℕ) × Handles
single (raise e, s) = (raise e, s)
single (done n, s) = (done (n ∷ []), s)

held-finish :
    (r : Request) (got : Outcome ℕ × Handles)
    → (r.size == 0) ≡ false
    → finish (r ∷ []) (on_acquired [] (λ t acquired. (done tt, acquired, t)) got)
      ≡ single (read_held r got)
unfolding read_all release_all
held-finish r (raise e, s) full = refl
held-finish r (done i, s) full = simp full (by_count r.got)
  where
    by_count :
        (got : Outcome ℕ)
        → ((do n ← got; ns ← done []; done (n ∷ ns)), release s i) ≡ single (got, release s i)
    by_count (raise e) = refl
    by_count (done n) = refl

-- A read of some bytes is a batch of one request: both have the count or the same error, and leave the
-- cache alike.
read_into_many-read_into :
    (driver : Outcome (Unit {0})) (s : Handles) (r : Request)
    → (r.size == 0) ≡ false
    → read_into_many driver s (r ∷ []) ≡ single (read_into driver s r)
unfolding read_into_many read_into acquire_all
read_into_many-read_into (raise e) s r full = refl
read_into_many-read_into (done u) s r full =
    simp full (held-finish r (acquire s r.path r.stat r.registers) full)

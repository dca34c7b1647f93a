-- ===== src/Io/Device.antt =====
-- src/czarr/lowlevel/io.py: `read` where cuFile is available, on `read_into_many` of src/czarr/cufile.py.
-- The device memory is left out: a buffer is full where the count of its read is its size. An error of
-- cuFile is already `os_error`, which `read` makes of it.
use czarr.Prelude.{
  ℕ, ◌≡◌, refl, ap, ◌∙◌, ◌⊎◌, inl, inr, Bool, Bool-cases, Option, List, [], ◌∷◌, map, Every, ◌==◌,
  ==_iff, if◌then◌else◌, Outcome, done, raise, >>=-eq-done, value_error, os_error,
}
use czarr.Plan.Ranges.{ReadRequest}
use czarr.Handles.{Handles, Signature}
use czarr.Handles.Batch.{Request, read_all, finish, Acquired, acquire_all, read_into_many}

-- What the operating system and cuFile answer for a request: the file's signature, whether it registers
-- and the outcome of the read.
pub record Answer : Type 0 where
  pub stat : Option Signature
  pub registers : Bool
  pub got : Outcome ℕ

-- `(r.path, int(b.data.ptr), r.nbytes, r.offset)`
abbrev pub cufile_request : ReadRequest × Answer → Request
cufile_request (r, a) = record {
  path = r.path;
  size = r.nbytes;
  stat = a.stat;
  registers = a.registers;
  got = a.got;
}

-- `for r, n in zip(requests, got, strict=True)`
unfoldable pub check_read : List (ReadRequest × Answer) → List ℕ → Outcome (Unit {0})
check_read [] [] = done tt
check_read (r ∷ requests) (n ∷ got) =
    if n == r.0.nbytes then check_read requests got else raise os_error
check_read _ _ = raise value_error

abbrev pub checked :
    List (ReadRequest × Answer) → Outcome (List ℕ) × Handles → Outcome (Unit {0}) × Handles
checked requests (raise e, s) = (raise e, s)
checked requests (done got, s) = (check_read requests got, s)

-- `read` through cuFile, where `driver` is the outcome of opening the driver
unfoldable pub read_device :
    Outcome (Unit {0}) → Handles → List (ReadRequest × Answer) → Outcome (Unit {0}) × Handles
unfolding check_read
read_device driver s [] = (done tt, s)
read_device driver s (r ∷ requests) =
    checked (r ∷ requests) (read_into_many driver s (map cufile_request (r ∷ requests)))

-- A request that was read in full.
abbrev pub IsFull : ReadRequest × Answer → Type 0
IsFull (r, a) = (r.nbytes ≡ 0) ⊎ (a.got ≡ done r.nbytes)

read_count :
    (r : ReadRequest × Answer) (n : ℕ)
    → (if r.0.nbytes == 0 then done 0 else r.1.got) ≡ done n
    → n ≡ r.0.nbytes
    → IsFull r
read_count r n first full = elim (Bool-cases (r.0.nbytes == 0)) [
  | inl empty ↦ inl ((==_iff _ _).0 empty)
  | inr some_bytes ↦ let first' = rw some_bytes at first in inr (first' ∙ ap done full)
]

-- The check that lets a read pass has compared the first count and then the others.
check_read-split :
    (r : ReadRequest × Answer) (requests : List (ReadRequest × Answer)) (n : ℕ) (ns : List ℕ)
    → check_read (r ∷ requests) (n ∷ ns) ≡ done tt
    → (n ≡ r.0.nbytes) × (check_read requests ns ≡ done tt)
unfolding check_read
check_read-split r requests n ns c = elim (Bool-cases (n == r.0.nbytes)) [
  | inl full ↦ let c' = rw full at c in ((==_iff _ _).0 full, c')
  | inr short ↦ let c' = rw short at c in cc
]

counts-IsFull :
    (requests : List (ReadRequest × Answer)) (got : List ℕ)
    → read_all (map cufile_request requests) ≡ done got
    → check_read requests got ≡ done tt
    → Every IsFull requests
unfolding read_all
counts-IsFull [] got h c = tt
counts-IsFull (r ∷ requests) got h c =
    let (n, first, tail) = >>=-eq-done (if r.0.nbytes == 0 then done 0 else r.1.got) _ h in
    let (ns, rest, last) = >>=-eq-done (read_all (map cufile_request requests)) _ tail in
    let joined : n ∷ ns ≡ got = cc in
    let c' : check_read (r ∷ requests) (n ∷ ns) ≡ done tt =
      ap (check_read (r ∷ requests)) joined ∙ c in
    let (full, c'') = check_read-split r requests n ns c' in
    (read_count r n first full, counts-IsFull requests ns rest c'')

checked_counts :
    (requests : List (ReadRequest × Answer)) (counts : Outcome (List ℕ)) (s t : Handles)
    → read_all (map cufile_request requests) ≡ counts
    → checked requests (counts, s) ≡ (done tt, t)
    → Every IsFull requests
checked_counts requests (done got) s t counted h =
    counts-IsFull requests got counted (ap (λ p. p.0) h)
checked_counts requests (raise e) s t counted h = let failed = ap (λ p. p.0) h in cc

checked-finish :
    (requests : List (ReadRequest × Answer)) (acquired : Acquired) (t : Handles)
    → checked requests (finish (map cufile_request requests) acquired) ≡ (done tt, t)
    → Every IsFull requests
checked-finish requests (raise e, entries, s) t h = let failed = ap (λ p. p.0) h in cc
checked-finish requests (done _, entries, s) t h =
    checked_counts requests (read_all (map cufile_request requests)) _ t refl h

-- Where `read` returns, every request was empty or was read to its whole size.
read_device-IsFull :
    (s t : Handles) (requests : List (ReadRequest × Answer))
    → read_device (done tt) s requests ≡ (done tt, t)
    → Every IsFull requests
unfolding read_device read_into_many
read_device-IsFull s t [] h = tt
read_device-IsFull s t (r ∷ requests) h =
    checked-finish (r ∷ requests) (acquire_all s [] (map cufile_request (r ∷ requests))) t h

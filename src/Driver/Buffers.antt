-- ===== src/Driver/Buffers.antt =====
-- src/czarr/cufile.py: the registered device buffers. `table` is `_registered_bufs`, `native` what cuFile
-- has registered; whether cuFile's calls return stands beside each operation.
use czarr.Prelude.{
  ℕ, ◌≤◌, ◌<◌, ◌≡◌, refl, sym, ap, ◌∙◌, inl, inr, Bool, true, false, Option, none, some, arith, leb,
  ◌==◌, if◌then◌else◌, Bool-cases, Outcome, done, raise, os_error,
}

-- A map from device pointers to sizes.
abbrev pub Sizes : Type 0
Sizes = ℕ → Option ℕ

abbrev pub put_size : Sizes → ℕ → Option ℕ → Sizes
put_size m ptr size p = if p == ptr then size else m p

pub record Buffers : Type 0 where
  pub table : Sizes
  pub native : Sizes

-- `existing is not None and existing >= size`
abbrev pub covers : Option ℕ → ℕ → Bool
covers none size = false
covers (some existing) size = leb size existing

-- `buf_deregister` of a pointer in the table, its error ignored.
abbrev pub drop_native : Buffers → ℕ → Bool → Option ℕ → Buffers
drop_native s ptr deregisters none = s
drop_native s ptr deregisters (some existing) = record s {
  native = if deregisters then put_size s.native ptr none else s.native;
}

-- `buf_register`, and the entry of the table.
abbrev pub add_native : Buffers → ℕ → ℕ → Bool → Outcome (Unit {0}) × Buffers
add_native s ptr size false = (raise os_error, s)
add_native s ptr size true = (
  done tt,
  record { table = put_size s.table ptr (some size); native = put_size s.native ptr (some size) },
)

-- `ensure_buf_registered`
unfoldable pub ensure_buf_registered : Buffers → ℕ → ℕ → Bool → Bool → Outcome (Unit {0}) × Buffers
ensure_buf_registered s ptr size deregisters registers =
    if covers (s.table ptr) size
    then (done tt, s)
    else add_native (drop_native s ptr deregisters (s.table ptr)) ptr size registers

-- `deregister_buf`
abbrev pub deregister_known : Buffers → ℕ → Bool → Option ℕ → Buffers
deregister_known s ptr deregisters none = s
deregister_known s ptr deregisters (some existing) =
    record (drop_native s ptr deregisters (some existing)) { table = put_size s.table ptr none }

unfoldable pub deregister_buf : Buffers → ℕ → Bool → Buffers
deregister_buf s ptr deregisters = deregister_known s ptr deregisters (s.table ptr)

-- What the table says of a pointer is what cuFile has.
abbrev pub InStep : Buffers → ℕ → Type 0
InStep s ptr = s.table ptr ≡ s.native ptr

drop_native-others :
    (s : Buffers) (ptr : ℕ) (deregisters : Bool) (o : Option ℕ) (p : ℕ)
    → (p == ptr) ≡ false
    → InStep s p
    → InStep (drop_native s ptr deregisters o) p
drop_native-others s ptr deregisters none p e h = h
drop_native-others s ptr true (some existing) p e h = rw e h
drop_native-others s ptr false (some existing) p e h = h

-- Where the table says of a pointer what cuFile has, and cuFile registers the size if it is asked: the
-- call returns, and leaves the pointer registered with cuFile for at least the size, whether or not the
-- deregistration before it returned. A pointer p at which the two agreed before, this one or another, is
-- one at which they agree after.
pub ensure_buf_registered-InStep :
    (s : Buffers) (ptr p size : ℕ) (deregisters : Bool)
    → InStep s ptr
    → InStep s p
    → (after : Buffers) × (ensure_buf_registered s ptr size deregisters true ≡ (done tt, after))
      × (covers (after.native ptr) size ≡ true)
      × InStep after p
unfolding ensure_buf_registered
ensure_buf_registered-InStep s ptr p size deregisters here there =
    elim (Bool-cases (covers (s.table ptr) size)) [
      | inl covered ↦ (s, rw covered refl, sym (ap (λ o. covers o size) here) ∙ covered, there)
      | inr short ↦
          let dropped = drop_native s ptr deregisters (s.table ptr) in
          let self : (ptr == ptr) ≡ true = ground arith in
          let enough : leb size size ≡ true = ground arith in
          (
            (add_native dropped ptr size true).1,
            rw short refl,
            rw self enough,
            elim (Bool-cases (p == ptr)) [
              | inl same ↦ rw same refl
              | inr other ↦
                  rw other (drop_native-others s ptr deregisters (s.table ptr) p other there)
            ],
          )
    ]

-- Where a pointer of the table is registered anew for a larger size and cuFile deregisters the old size
-- but refuses the new one, the call raises and the table keeps the old size: each later call for at most
-- the old size returns at once, though cuFile has nothing registered there.
pub ensure_buf_registered_stale :
    (s : Buffers) (ptr old size later : ℕ) (deregisters registers : Bool)
    → s.table ptr ≡ some old
    → old < size
    → later ≤ old
    → (after : Buffers) × (ensure_buf_registered s ptr size true false ≡ (raise os_error, after))
      × (ensure_buf_registered after ptr later deregisters registers ≡ (done tt, after))
      × (after.native ptr ≡ none)
unfolding ensure_buf_registered
ensure_buf_registered_stale s ptr old size later deregisters registers e grown small =
    let self : (ptr == ptr) ≡ true = ground arith in
    let short : leb size old ≡ false = ground arith in
    let covered : leb later old ≡ true = ground arith in
    (drop_native s ptr true (some old), rw (e, short) refl, rw (e, covered) refl, rw self refl)

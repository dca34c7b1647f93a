-- ===== src/Codecs/Batch/Stored.antt =====
-- The outputs of a batch, each in the place of its chunk.
use mathlib.Core.List.{append_assoc}
use czarr.Prelude.{
  ℕ, suc, ◌≡◌, refl, sym, ap, Option, none, some, List, [], ◌∷◌, ◌++◌, arith, map, length,
  length-append, done,
}
use czarr.Codecs.Frame.{Bytes}
use czarr.Codecs.Batch.{Buffer, Spec, Items, live_items, nones, put, put_all}

-- The bytes of the chunks that are there.
unfoldable pub payloads : Items → List Bytes
payloads [] = []
payloads ((none, spec) ∷ items) = payloads items
payloads ((some chunk, spec) ∷ items) = chunk.bytes ∷ payloads items

-- The outputs in the places of those chunks.
unfoldable pub stored : (Spec → Buffer → Bytes → Buffer) → Items → List Bytes → List (Option Buffer)
stored wrap [] ss = []
stored wrap ((none, spec) ∷ items) ss = none ∷ stored wrap items ss
stored wrap ((some chunk, spec) ∷ items) [] = none ∷ stored wrap items []
stored wrap ((some chunk, spec) ∷ items) (s ∷ ss) = some (wrap spec chunk s) ∷ stored wrap items ss

pub stored-nil :
    (wrap : Spec → Buffer → Bytes → Buffer) (items : Items) → stored wrap items [] ≡ nones items
unfolding stored
stored-nil wrap [] = refl
stored-nil wrap ((none, spec) ∷ items) = ap (◌∷◌ none) (stored-nil wrap items)
stored-nil wrap ((some chunk, spec) ∷ items) = ap (◌∷◌ none) (stored-nil wrap items)

pub live_items-payloads :
    (i : ℕ) (items : Items) → map (λ l. l.2.bytes) (live_items i items) ≡ payloads items
unfolding live_items payloads
live_items-payloads i [] = refl
live_items-payloads i ((none, spec) ∷ items) = live_items-payloads (suc i) items
live_items-payloads i ((some chunk, spec) ∷ items) =
    ap (◌∷◌ chunk.bytes) (live_items-payloads (suc i) items)

pub length-live_items :
    (i : ℕ) (items : Items) → length (live_items i items) ≡ length (payloads items)
unfolding live_items payloads
length-live_items i [] = refl
length-live_items i ((none, spec) ∷ items) = length-live_items (suc i) items
length-live_items i ((some chunk, spec) ∷ items) = ap suc (length-live_items (suc i) items)

put-append :
    (i : ℕ) (b : Buffer) (o : Option Buffer) (pre rest : List (Option Buffer))
    → i ≡ length pre
    → put i b (pre ++ o ∷ rest) ≡ done (pre ++ some b ∷ rest)
unfolding put
put-append i b o [] rest e = rw e
put-append i b o (x ∷ pre) rest e = rw (e, put-append (length pre) b o pre rest refl)

pub put_all-stored :
    (wrap : Spec → Buffer → Bytes → Buffer) (pre : List (Option Buffer)) (i : ℕ) (items : Items)
    (ss : List Bytes)
    → i ≡ length pre
    → length ss ≡ length (payloads items)
    → put_all wrap (live_items i items) ss (pre ++ nones items) ≡ done (pre ++ stored wrap items ss)
unfolding put_all live_items payloads stored
put_all-stored wrap pre i [] [] e h = refl
put_all-stored wrap pre i [] (s ∷ ss) e h = absurd (omega arith)
put_all-stored wrap pre i ((none, spec) ∷ items) ss e h =
    let longer : suc i ≡ length (pre ++ none ∷ []) = omega (arith, length-append pre (none ∷ [])) in
    rw
      (
        sym (append_assoc pre (none ∷ []) (nones items)),
        put_all-stored wrap (pre ++ none ∷ []) (suc i) items ss longer h,
      )
      (ap done (append_assoc pre (none ∷ []) _))
put_all-stored wrap pre i ((some chunk, spec) ∷ items) [] e h = absurd (omega arith)
put_all-stored wrap pre i ((some chunk, spec) ∷ items) (s ∷ ss) e h =
    let b = wrap spec chunk s in
    let longer : suc i ≡ length (pre ++ some b ∷ []) =
      omega (arith, length-append pre (some b ∷ [])) in
    rw
      (
        put-append i b none pre (nones items) e,
        sym (append_assoc pre (some b ∷ []) (nones items)),
        put_all-stored wrap (pre ++ some b ∷ []) (suc i) items ss longer (omega arith),
      )
      (ap done (append_assoc pre (some b ∷ []) _))

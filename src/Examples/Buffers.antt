-- ===== src/Examples/Buffers.antt =====
-- Device buffers of a few bytes.
use czarr.Prelude.{◌≡◌, refl, [], ◌∷◌, replicate, length-replicate, done, raise, value_error}
use czarr.Prelude.Int.{negsuc}
use czarr.Buffers.{wider, new_buffer, Allocator, empty_buffer, from_bytes, combine}

-- Memory that still has sevens.
abbrev sevens : Allocator
sevens = record { fresh = λ n. replicate n 7; length-fresh = λ n. length-replicate n 7 }

three_parts : combine sevens (1 ∷ 2 ∷ []) ([] ∷ (3 ∷ []) ∷ []) ≡ done (1 ∷ 2 ∷ 3 ∷ [])
unfolding combine
three_parts = refl

no_parts : combine sevens [] [] ≡ done []
unfolding combine
no_parts = refl

refused :
    (new_buffer (record { ndim = 1; element_type = wider; bytes = [] }) ≡ raise value_error)
    × (new_buffer (record { ndim = 2; element_type = wider; bytes = [] }) ≡ raise value_error)
    × (empty_buffer sevens (negsuc 0) ≡ raise value_error)
    × (from_bytes sevens (9 ∷ []) ≡ done (9 ∷ []))
unfolding new_buffer empty_buffer from_bytes
refused = (refl, refl, refl, refl)

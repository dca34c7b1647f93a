-- ===== src/Examples/Coalesce.antt =====
-- src/czarr/lowlevel/coalesce.py on four ranges of a file of eight bytes.
use mathlib.Core.List.{map, Perm}
use czarr.Prelude.{ℕ, ◌≡◌, refl, List, [], ◌∷◌, Every, done, raise, value_error}
use czarr.Prelude.Int.{pos, negsuc}
use czarr.Coalesce.{ByteRange, FusedRead, enumerate_from, coalesce, coalesce_ranges}
use czarr.Coalesce.Spans.{spans, coalesce_ranges-perm}
use czarr.Coalesce.Windows.{IsTight, coalesce-IsTight}
use czarr.Coalesce.Payload.{read_windows, read_request, read_windows-perm}

abbrev four : List ByteRange
four =
    record { offset = 4; length = 2 }
    ∷ record { offset = 0; length = 2 }
    ∷ record { offset = 2; length = 1 }
    ∷ record { offset = 7; length = 0 }
    ∷ []

abbrev bytes : List ℕ
bytes = 10 ∷ 11 ∷ 12 ∷ 13 ∷ 14 ∷ 15 ∷ 16 ∷ 17 ∷ []

coalesce_four :
    coalesce_ranges four (pos 8) (pos 1)
    ≡ done (
        record { offset = 0; length = 6; members = (1, 0, 2) ∷ (2, 2, 1) ∷ (0, 4, 2) ∷ [] }
        ∷ record { offset = 7; length = 0; members = (3, 0, 0) ∷ [] }
        ∷ [])
unfolding coalesce_ranges coalesce
coalesce_four = refl

coalesce_small_cap :
    coalesce_ranges four (pos 3) (pos 0)
    ≡ done (
        record { offset = 0; length = 3; members = (1, 0, 2) ∷ (2, 2, 1) ∷ [] }
        ∷ record { offset = 4; length = 2; members = (0, 0, 2) ∷ [] }
        ∷ record { offset = 7; length = 0; members = (3, 0, 0) ∷ [] }
        ∷ [])
unfolding coalesce_ranges coalesce
coalesce_small_cap = refl

coalesce_bad_gap : coalesce_ranges four (pos 3) (negsuc 0) ≡ raise value_error
unfolding coalesce_ranges
coalesce_bad_gap = refl

coalesce_ranges-perm_example :
    (out : List FusedRead) × (coalesce_ranges four (pos 8) (pos 1) ≡ done out)
    × Perm (spans out) (enumerate_from 0 four)
coalesce_ranges-perm_example = coalesce_ranges-perm four 7 1

coalesce-IsTight_example : Every (IsTight 8 1) (coalesce 8 1 four)
coalesce-IsTight_example = coalesce-IsTight 8 1 four

read_windows-perm_example :
    Perm (read_windows bytes (coalesce 8 1 four)) (map (read_request bytes) (enumerate_from 0 four))
read_windows-perm_example = read_windows-perm bytes 8 1 four

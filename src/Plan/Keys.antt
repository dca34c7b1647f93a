-- ===== src/Plan/Keys.antt =====
-- src/czarr/lowlevel/plan.py: the store keys of chunk files, and tuples of coordinates as keys.
use czarr.Prelude.{
  ℕ, zero, suc, get_elem?, none, some, ◌/◌, ◌%◌, Bool, true, false, ◌&&◌, ◌||◌, List, [], ◌∷◌, ltb,
  ◌==◌, if◌then◌else◌,
}
use czarr.Prelude.Text.{String, append}
use czarr.Plan.{DecodePlan}

abbrev digits : List String
digits = "0" ∷ "1" ∷ "2" ∷ "3" ∷ "4" ∷ "5" ∷ "6" ∷ "7" ∷ "8" ∷ "9" ∷ []

abbrev digit : ℕ → String
digit n = elim (get_elem? digits n) [ none ↦ "" | some d ↦ d ]

-- The decimal digits of n. Each step divides by 10, so that n + 1 steps are enough.
decimal : ℕ → ℕ → String
decimal zero n = ""
decimal (suc fuel) n =
    let front = decimal fuel (n / 10) in if ltb n 10 then digit n else append front (digit (n % 10))

-- `str(c)`
unfoldable pub str : ℕ → String
unfolding decimal
str c = decimal (suc c) c

-- `sep.join(str(c) for c in chunk_coords)`
unfoldable pub join : String → List ℕ → String
unfolding str
join sep [] = ""
join sep (c ∷ []) = str c
join sep (c ∷ d ∷ cs) = append (append (str c) sep) (join sep (d ∷ cs))

-- `chunk_key`
unfoldable pub chunk_key : DecodePlan → List ℕ → String
unfolding join
chunk_key plan [] = if plan.key_prefix_c then "c" else ""
chunk_key plan (c ∷ cs) =
    if plan.key_prefix_c
    then append (append "c" plan.key_separator) (join plan.key_separator (c ∷ cs))
    else join plan.key_separator (c ∷ cs)

-- `a == b` on tuples
abbrev pub tuple_eq : List ℕ → List ℕ → Bool
tuple_eq [] [] = true
tuple_eq (x ∷ xs) (y ∷ ys) = (x == y) && tuple_eq xs ys
tuple_eq _ _ = false

-- `a < b` on tuples
unfoldable pub tuple_ltb : List ℕ → List ℕ → Bool
tuple_ltb [] [] = false
tuple_ltb [] (y ∷ ys) = true
tuple_ltb (x ∷ xs) [] = false
tuple_ltb (x ∷ xs) (y ∷ ys) = ltb x y || ((x == y) && tuple_ltb xs ys)

-- ===== src/Handles/Paths.antt =====
-- Python's `OrderedDict` from paths to object names, as the list of its items in order, with its
-- operations counted by value and by key.
use czarr.Prelude.{
  one_if, ℕ, suc, ◌+◌, ◌≡◌, refl, ◌∙◌, Option, none, some, List, [], ◌∷◌, ◌++◌, arith, length,
  length-append, ◌==◌, if◌then◌else◌,
}
use czarr.Prelude.Text.{String, str_eq, eq_iff}

abbrev pub Dict : Type 0
Dict = List (String × ℕ)

-- d.get(key)
unfoldable pub get : String → Dict → Option ℕ
get key [] = none
get key ((k, i) ∷ d) = if str_eq k key then some i else get key d

-- del d[key]
unfoldable pub delete : String → Dict → Dict
delete key [] = []
delete key ((k, i) ∷ d) = if str_eq k key then d else (k, i) ∷ delete key d

-- d[key] = i: in place where the key is there, at the end otherwise
unfoldable pub put : String → ℕ → Dict → Dict
put key i [] = (key, i) ∷ []
put key i ((k, j) ∷ d) = if str_eq k key then (k, i) ∷ d else (k, j) ∷ put key i d

-- d.move_to_end(key), where d[key] is i
unfoldable pub move_to_end : String → ℕ → Dict → Dict
unfolding delete
move_to_end key i d = delete key d ++ (key, i) ∷ []

-- How often an object is a value, and a path a key.
unfoldable pub count_value : ℕ → Dict → ℕ
count_value i [] = 0
count_value i ((k, j) ∷ d) = one_if (i == j) + count_value i d

unfoldable pub count_key : String → Dict → ℕ
count_key key [] = 0
count_key key ((k, j) ∷ d) = one_if (str_eq k key) + count_key key d

count_value-append :
    (i j : ℕ) (key : String) (d : Dict)
    → count_value i (d ++ (key, j) ∷ []) ≡ count_value i d + one_if (i == j)
unfolding count_value
count_value-append i j key [] = omega arith
count_value-append i j key ((k, l) ∷ d) = omega (arith, count_value-append i j key d)

count_key-append :
    (q key : String) (j : ℕ) (d : Dict)
    → count_key q (d ++ (key, j) ∷ []) ≡ count_key q d + one_if (str_eq key q)
unfolding count_key
count_key-append q key j [] = omega arith
count_key-append q key j ((k, l) ∷ d) = omega (arith, count_key-append q key j d)

pub count_value-delete :
    (i j : ℕ) (key : String) (d : Dict)
    → get key d ≡ some j
    → count_value i (delete key d) + one_if (i == j) ≡ count_value i d
unfolding count_value delete get
count_value-delete i j key [] h = absurd (cc)
count_value-delete i j key ((k, l) ∷ d) h = ground (arith, count_value-delete i j key d)

pub count_key-delete :
    (q key : String) (j : ℕ) (d : Dict)
    → get key d ≡ some j
    → count_key q (delete key d) + one_if (str_eq key q) ≡ count_key q d
unfolding count_key delete get
count_key-delete q key j [] h = absurd (cc)
count_key-delete q key j ((k, l) ∷ d) h = ground (arith, eq_iff k key, count_key-delete q key j d)

pub get_none-count_key : (key : String) (d : Dict) → count_key key d ≡ 0 → get key d ≡ none
unfolding count_key get
get_none-count_key key [] h = refl
get_none-count_key key ((k, i) ∷ d) h = ground (arith, get_none-count_key key d)

pub count_key_of_none : (key : String) (d : Dict) → get key d ≡ none → count_key key d ≡ 0
unfolding count_key get
count_key_of_none key [] h = refl
count_key_of_none key ((k, i) ∷ d) h = ground (arith, count_key_of_none key d)

-- A key that is not there goes to the end.
pub put-append :
    (key : String) (i : ℕ) (d : Dict) → get key d ≡ none → put key i d ≡ d ++ (key, i) ∷ []
unfolding put get
put-append key i [] h = refl
put-append key i ((k, j) ∷ d) h = ground (arith, put-append key i d)

pub count_value-put :
    (i j : ℕ) (key : String) (d : Dict)
    → get key d ≡ none
    → count_value i (put key j d) ≡ count_value i d + one_if (i == j)
count_value-put i j key d h = rw (put-append key j d h) (count_value-append i j key d)

pub count_key-put :
    (q key : String) (j : ℕ) (d : Dict)
    → get key d ≡ none
    → count_key q (put key j d) ≡ count_key q d + one_if (str_eq key q)
count_key-put q key j d h = rw (put-append key j d h) (count_key-append q key j d)

pub count_value-move_to_end :
    (i j : ℕ) (key : String) (d : Dict)
    → get key d ≡ some j
    → count_value i (move_to_end key j d) ≡ count_value i d
unfolding move_to_end
count_value-move_to_end i j key d h =
    count_value-append i j key (delete key d) ∙ count_value-delete i j key d h

pub count_key-move_to_end :
    (q key : String) (j : ℕ) (d : Dict)
    → get key d ≡ some j
    → count_key q (move_to_end key j d) ≡ count_key q d
unfolding move_to_end
count_key-move_to_end q key j d h =
    count_key-append q key j (delete key d) ∙ count_key-delete q key j d h

pub length-delete :
    (key : String) (i : ℕ) (d : Dict) → get key d ≡ some i → suc (length (delete key d)) ≡ length d
unfolding delete get
length-delete key i [] h = absurd (cc)
length-delete key i ((k, j) ∷ d) h = ground (arith, length-delete key i d)

pub length-move_to_end :
    (key : String) (i : ℕ) (d : Dict) → get key d ≡ some i → length (move_to_end key i d) ≡ length d
unfolding move_to_end
length-move_to_end key i d h =
    omega (arith, length-append (delete key d) ((key, i) ∷ []), length-delete key i d h)

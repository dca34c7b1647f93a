-- ===== src/Prelude/Raise.antt =====
-- The result of code that may raise: a value, or the class of the exception.
use mathlib.Core.Path.{◌≡◌, refl}
use mathlib.Core.List.{List, [], ◌∷◌}

pub data Error : Type 0 where
  value_error index_error type_error key_error : Error
  not_implemented zero_division file_not_found os_error runtime_error overflow_error
        module_not_found attribute_error struct_error :
      Error

pub data Outcome {ℓ} (V : Type ℓ) : Type ℓ where
  done : V → Outcome V
  raise : Error → Outcome V

-- The next statement runs where the one before has not raised.
infixl 5 ◌>>=◌
abbrev pub ◌>>=◌ {ℓ κ} : {V : Type ℓ} {W : Type κ} → Outcome V → (V → Outcome W) → Outcome W
raise error >>= next = raise error
done v >>= next = next v

-- The value of a successful bind comes through both of its parts.
pub >>=-eq-done {ℓ κ} :
    {V : Type ℓ} {W : Type κ} {w : W} (m : Outcome V) (next : V → Outcome W)
    → ((m >>= next) ≡ done w)
    → (v : V) × (m ≡ done v) × (next v ≡ done w)
>>=-eq-done (raise error) next h = cc
>>=-eq-done (done v) next h = (v, refl, h)

-- `[f(x, y) for x, y in zip(xs, ys, strict=True)]`
unfoldable pub zip_strict :
    {A B C : Type 0} → (A → B → Outcome C) → List A → List B → Outcome (List C)
zip_strict f [] [] = done []
zip_strict f (x ∷ xs) (y ∷ ys) = do z ← f x y; zs ← zip_strict f xs ys; done (z ∷ zs)
zip_strict f _ _ = raise value_error

-- ===== src/Prelude/Gather.antt =====
-- The results of a function to lists, one behind the other, and their rearrangement.
use mathlib.Core.List.{append_assoc, Perm, perm_middle}
use mathlib.Core.List.Perm
use czarr.Prelude.{◌≡◌, refl, sym, ap, ◌∙◌, List, [], ◌∷◌, ◌++◌, Every}

abbrev pub gather {ℓ κ} : {A : Type ℓ} {B : Type κ} → (A → List B) → List A → List B
gather f [] = []
gather f (x ∷ xs) = f x ++ gather f xs

pub gather-append {ℓ κ} :
    {A : Type ℓ} {B : Type κ} (f : A → List B) (xs ys : List A)
    → gather f (xs ++ ys) ≡ gather f xs ++ gather f ys
gather-append f [] ys = refl
gather-append f (x ∷ xs) ys =
    ap (λ l. f x ++ l) (gather-append f xs ys)
    ∙ sym (append_assoc (f x) (gather f xs) (gather f ys))

-- Two blocks in front of a list change places.
pub append-swap {ℓ} : {A : Type ℓ} (xs ys zs : List A) → Perm (xs ++ (ys ++ zs)) (ys ++ (xs ++ zs))
append-swap [] ys zs = Perm.rfl
append-swap (x ∷ xs) ys zs =
    Perm.trans (Perm.cons x (append-swap xs ys zs)) (Perm.symm (perm_middle ys (xs ++ zs)))

pub gather-eq {ℓ κ} :
    {A : Type ℓ} {B : Type κ} (f g : A → List B) (xs : List A)
    → Every (λ x. f x ≡ g x) xs
    → gather f xs ≡ gather g xs
gather-eq f g [] h = refl
gather-eq f g (x ∷ xs) h = rw (h.0, gather-eq f g xs h.1)

pub gather-nil {ℓ κ} : {A : Type ℓ} {B : Type κ} (xs : List A) → gather {B = B} (λ x. []) xs ≡ []
gather-nil [] = refl
gather-nil (x ∷ xs) = gather-nil xs

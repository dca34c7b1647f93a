-- ===== src/Coalesce/Sorting.antt =====
-- `sort_by_key` returns a rearrangement of its input in which the offsets ascend.
use mathlib.Core.List.{Perm}
use mathlib.Core.List.Perm
use czarr.Prelude.{
  ◌≤◌, ◌≡◌, true, false, inl, inr, List, [], ◌∷◌, arith, Bool-cases, Every, Every-mono,
}
use czarr.Prelude.Gather.{gather, append-swap}
use czarr.Coalesce.{Indexed, key_leb, insert_by_key, sort_by_key}

-- Every offset is at most those after it.
abbrev pub Ascending : List Indexed → Type 0
Ascending [] = Unit
Ascending (x ∷ xs) = Every (λ y. x.0.offset ≤ y.0.offset) xs × Ascending xs

insert_by_key-perm : (x : Indexed) (xs : List Indexed) → Perm (insert_by_key x xs) (x ∷ xs)
unfolding insert_by_key
insert_by_key-perm x [] = Perm.rfl
insert_by_key-perm x (y ∷ ys) = elim (Bool-cases (key_leb x y)) [
  | inl e ↦ rw (e, insert_by_key) Perm.rfl
  | inr e ↦
      rw (e, insert_by_key) (Perm.trans (Perm.cons y (insert_by_key-perm x ys)) (Perm.swap x y ys))
]

pub sort_by_key-perm : (xs : List Indexed) → Perm (sort_by_key xs) xs
unfolding sort_by_key
sort_by_key-perm [] = Perm.rfl
sort_by_key-perm (x ∷ xs) =
    Perm.trans (insert_by_key-perm x (sort_by_key xs)) (Perm.cons x (sort_by_key-perm xs))

key_leb→le : (x y : Indexed) → key_leb x y ≡ true → x.0.offset ≤ y.0.offset
unfolding key_leb
key_leb→le x y h = ground arith

key_lt→le : (x y : Indexed) → key_leb x y ≡ false → y.0.offset ≤ x.0.offset
unfolding key_leb
key_lt→le x y h = ground arith

Every-insert_by_key {ℓ} :
    (P : Indexed → Type ℓ) (x : Indexed) (ys : List Indexed)
    → P x
    → Every P ys
    → Every P (insert_by_key x ys)
unfolding insert_by_key
Every-insert_by_key P x [] h k = (h, tt)
Every-insert_by_key P x (y ∷ ys) h k = elim (Bool-cases (key_leb x y)) [
  | inl e ↦ rw (e, insert_by_key) (h, k)
  | inr e ↦ rw (e, insert_by_key) (k.0, Every-insert_by_key P x ys h k.1)
]

insert_by_key-Ascending :
    (x : Indexed) (ys : List Indexed) → Ascending ys → Ascending (insert_by_key x ys)
unfolding insert_by_key
insert_by_key-Ascending x [] h = (tt, tt)
insert_by_key-Ascending x (y ∷ ys) h = elim (Bool-cases (key_leb x y)) [
  | inl e ↦
      let le : x.0.offset ≤ y.0.offset = key_leb→le x y e in
      rw (e, insert_by_key) ((le, Every-mono (λ z k. omega arith) ys h.0), h)
  | inr e ↦
      rw (e, insert_by_key)
        (
          Every-insert_by_key (λ z. y.0.offset ≤ z.0.offset) x ys (key_lt→le x y e) h.0,
          insert_by_key-Ascending x ys h.1,
        )
]

pub sort_by_key-Ascending : (xs : List Indexed) → Ascending (sort_by_key xs)
unfolding sort_by_key
sort_by_key-Ascending [] = tt
sort_by_key-Ascending (x ∷ xs) =
    insert_by_key-Ascending x (sort_by_key xs) (sort_by_key-Ascending xs)

module _ {ℓ} {B : Type ℓ} (f : Indexed → List B) where
  gather-insert_by_key :
      (x : Indexed) (xs : List Indexed) → Perm (gather f (insert_by_key x xs)) (gather f (x ∷ xs))
  unfolding insert_by_key
  gather-insert_by_key x [] = Perm.rfl
  gather-insert_by_key x (y ∷ ys) = elim (Bool-cases (key_leb x y)) [
    | inl e ↦ rw (e, insert_by_key) Perm.rfl
    | inr e ↦
        rw (e, insert_by_key)
          (Perm.trans (Perm.append_left (f y) (gather-insert_by_key x ys))
            (append-swap (f y) (f x) (gather f ys)))
  ]

  pub gather-sort_by_key : (xs : List Indexed) → Perm (gather f (sort_by_key xs)) (gather f xs)
  unfolding sort_by_key
  gather-sort_by_key [] = Perm.rfl
  gather-sort_by_key (x ∷ xs) =
      Perm.trans (gather-insert_by_key x (sort_by_key xs))
        (Perm.append_left (f x) (gather-sort_by_key xs))

module _ {ℓ} (P : Indexed → Type ℓ) where
  pub Every-sort_by_key : (xs : List Indexed) → Every P xs → Every P (sort_by_key xs)
  unfolding sort_by_key
  Every-sort_by_key [] h = tt
  Every-sort_by_key (x ∷ xs) h =
      Every-insert_by_key P x (sort_by_key xs) h.0 (Every-sort_by_key xs h.1)

-- ===== src/Plan/Ranks.antt =====
-- Every unit that is selected has one coordinate for each axis.
use mathlib.Core.List.{map}
use czarr.Prelude.{
  ℕ, suc, ◌≡◌, refl, sym, ap, ◌∙◌, some, List, [], ◌∷◌, arith, length, Every, Every-append,
  Every-mono, Outcome, done, >>=-eq-done, zip_strict,
}
use czarr.Selection.{Selection, normalize_selection}
use czarr.Plan.{
  ShardSpec, DecodePlan, decode_shape, decode_chunk_shape, floor_div, units_per, units_per_shard,
  axis_units, prefix_each, product, units_of_bounds, selected_units,
}

zip_strict-length :
    {A B C : Type 0} (f : A → B → Outcome C) (xs : List A) (ys : List B) (zs : List C)
    → zip_strict f xs ys ≡ done zs
    → length zs ≡ length ys
unfolding zip_strict
zip_strict-length f [] [] zs h = let e : zs ≡ [] = cc in rw e refl
zip_strict-length f [] (y ∷ ys) zs h = absurd (ground arith)
zip_strict-length f (x ∷ xs) [] zs h = absurd (ground arith)
zip_strict-length f (x ∷ xs) (y ∷ ys) zs h =
    let (z, _, h₁) = >>=-eq-done (f x y) _ h in
    let (rest, h₂, h₃) = >>=-eq-done (zip_strict f xs ys) _ h₁ in
    let e : zs ≡ z ∷ rest = cc in rw e (ap suc (zip_strict-length f xs ys rest h₂))

Every-map_cons :
    (x n : ℕ) (t : List (List ℕ))
    → Every (λ c. length c ≡ n) t
    → Every (λ c. length c ≡ suc n) (map (λ c. x ∷ c) t)
Every-map_cons x n [] h = tt
Every-map_cons x n (c ∷ t) h = (ap suc h.0, Every-map_cons x n t h.1)

prefix_each-length :
    (n : ℕ) (xs : List ℕ) (t : List (List ℕ))
    → Every (λ c. length c ≡ n) t
    → Every (λ c. length c ≡ suc n) (prefix_each xs t)
unfolding prefix_each
prefix_each-length n [] t h = tt
prefix_each-length n (x ∷ xs) t h =
    Every-append _ (map (λ c. x ∷ c) t) _ (Every-map_cons x n t h) (prefix_each-length n xs t h)

product-length : (rs : List (List ℕ)) → Every (λ c. length c ≡ length rs) (product rs)
unfolding product
product-length [] = (refl, tt)
product-length (r ∷ rs) = prefix_each-length (length rs) r (product rs) (product-length rs)

pub selected_units-length :
    (plan : DecodePlan) (selection : Selection) (units : List (List ℕ))
    → selected_units plan selection ≡ done units
    → Every (λ c. length c ≡ length (decode_chunk_shape plan)) units
unfolding selected_units units_of_bounds
selected_units-length plan selection units h =
    let (bounds, _, h₁) = >>=-eq-done (normalize_selection selection plan.shape) _ h in
    let (per_axis, h₂, h₃) =
      >>=-eq-done (zip_strict axis_units bounds (decode_chunk_shape plan)) _ h₁ in
    let e : units ≡ product per_axis = cc in
    let lengths = zip_strict-length axis_units bounds (decode_chunk_shape plan) per_axis h₂ in
    rw e (Every-mono (λ c k. k ∙ lengths) (product per_axis) (product-length per_axis))

pub units_per_shard-length :
    (plan : DecodePlan) (spec : ShardSpec) (per_shard : List ℕ)
    → plan.shard ≡ some spec
    → units_per_shard plan ≡ done per_shard
    → length per_shard ≡ length (decode_chunk_shape plan)
unfolding units_per_shard decode_chunk_shape
units_per_shard-length plan spec per_shard s h =
    zip_strict-length floor_div plan.chunk_shape spec.inner_chunk_shape per_shard
      (sym (ap (units_per plan.chunk_shape) s) ∙ h)
    ∙ sym (ap (λ o. length (decode_shape plan.chunk_shape o)) s)

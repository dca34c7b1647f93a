-- ===== src/Decode/Region.antt =====
-- The elements of the region that `_decode_sync` makes.
use czarr.Prelude.{
  ℕ, ◌≡◌, ◌<◌, ◌⊎◌, refl, ap, ◌∙◌, inl, inr, Bool, true, false, Option, none, some, List, map,
  length, ltb, Every, done,
}
use czarr.Selection.{Bound}
use czarr.Plan.{DecodePlan, decode_chunk_shape, selected_units}
use czarr.Plan.Ranges.{ReadRequest}
use czarr.Decode.{Chain, parse_chain, NdArray, chunk_nbytes, widths}
use czarr.Decode.Scatter.{Inside, unit_of, within, lookup_last, element, IsPart, scatter-get}
use czarr.Decode.Pipeline.{
  Decoders, cut_all, decompress, unshuffled, pair_up, base, bound_selection, decode_units,
  decode_sync,
}

module _ {A : Type 0} {itemsize : ℕ} (cupy : NdArray A itemsize) (dec : Decoders cupy) where
  -- An array that the caller gives has the shape of the region.
  abbrev pub HasShape : Option cupy.Arr → List ℕ → Type 0
  HasShape none s = Unit
  HasShape (some out) s = cupy.shape out ≡ s

  shape-base :
      (out : Option cupy.Arr) (s : List ℕ) (a : A) (missing : Bool)
      → HasShape out s
      → cupy.shape (base cupy dec out s a missing) ≡ s
  shape-base none s a true h = dec.shape-full s a
  shape-base none s a false h = dec.shape-empty s
  shape-base (some out) s a true h = dec.shape-fill out a ∙ h
  shape-base (some out) s a false h = h

  get-base :
      (out : Option cupy.Arr) (s : List ℕ) (a : A) (x : List ℕ)
      → cupy.get (base cupy dec out s a true) x ≡ a
  get-base none s a x = dec.get-full s a x
  get-base (some out) s a x = dec.get-fill out a x

  -- The element that is there already counts only where no unit was read.
  element-base :
      (cs : List ℕ) (missing : Bool) (out : Option cupy.Arr) (s : List ℕ) (a : A) (x place : List ℕ)
      (o : Option cupy.Flat)
      → (missing ≡ true) ⊎ ((flat : cupy.Flat) × (o ≡ some flat))
      → element cupy cs (cupy.get (base cupy dec out s a missing) x) place o
        ≡ element cupy cs a place o
  element-base cs missing out s a x place o (inl e) =
      rw e (ap (λ b. element cupy cs b place o) (get-base out s a x))
  element-base cs missing out s a x place o (inr (flat, e)) = rw e refl

  -- Where the codecs of the plan are understood and the decoders return, for the units of the requests,
  -- arrays of the size of a chunk, all of units that meet the selection: `_decode_sync` returns, and an
  -- element of the region is that of its unit's array, or the fill value where its unit was not read. The
  -- condition on the element is that fewer units were read than are selected, or its own was read.
  pub decode_sync-get :
      (plan : DecodePlan) (fill_value : A) (requests : List ReadRequest)
      (buffers mid flats : List cupy.Flat) (bs : List Bound) (out : Option cupy.Arr) (chain : Chain)
      (units parts : List (List ℕ × cupy.Flat)) (selected : List (List ℕ)) (x : List ℕ)
      (positive : Every (λ c. 0 < c) (decode_chunk_shape plan))
      → parse_chain plan.codecs itemsize ≡ done chain
      → cut_all cupy dec chain.crc32c_trailer requests buffers ≡ done units
      → decompress cupy dec chain.compressor
          (chunk_nbytes (decode_chunk_shape plan) itemsize)
          (map (λ u. u.1) units)
        ≡ done mid
      → unshuffled cupy dec chain.shuffle_elementsize mid ≡ done flats
      → pair_up cupy dec units flats ≡ done parts
      → Every (IsPart cupy (decode_chunk_shape plan) bs positive) parts
      → selected_units plan (bound_selection cupy dec bs) ≡ done selected
      → HasShape out (widths bs)
      → Inside x bs
      → (ltb (length units) (length selected) ≡ true)
        ⊎ ((flat : cupy.Flat) × (lookup_last cupy (unit_of x bs (decode_chunk_shape plan)) parts
              ≡ some flat))
      → (result : cupy.Arr) × (decode_sync cupy dec plan fill_value requests buffers bs out
          ≡ done result)
        × (cupy.get result x
            ≡ element cupy
                (decode_chunk_shape plan)
                fill_value
                (within x bs (decode_chunk_shape plan))
                (lookup_last cupy (unit_of x bs (decode_chunk_shape plan)) parts))
  unfolding decode_sync decode_units
  decode_sync-get plan fill_value requests buffers mid flats bs out chain units parts selected x
        positive parsed cut middle flat paired ok chosen shaped inside known =
      let cs = decode_chunk_shape plan in
      let missing = ltb (length units) (length selected) in
      let start = base cupy dec out (widths bs) fill_value missing in
      let (result, scattered, elements) =
        scatter-get cupy cs bs positive parts start ok
          (shape-base out (widths bs) fill_value missing shaped) in
      (
        result,
        rw (parsed, cut, middle, flat, chosen, paired) scattered,
        elements x inside
            ∙ element-base cs missing out (widths bs) fill_value x (within x bs cs)
                (lookup_last cupy (unit_of x bs cs) parts) known,
      )

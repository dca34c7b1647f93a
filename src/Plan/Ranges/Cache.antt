-- ===== src/Plan/Ranges/Cache.antt =====
-- `_shard_index` with the default fetch: it returns the index that the shard's file holds, cached or
-- read, and leaves a cache of such indexes.
use mathlib.Core.Path.{subst}
use czarr.Prelude.{
  ℕ, ◌-◌, ◌*◌, ◌≤◌, ◌<◌, min, ◌≡◌, refl, ap, ap₂, ◌∙◌, inl, inr, true, Option, none, some, List, [],
  ◌∷◌, arith, length, length-take, length-drop, drop, take, take-take, slice, ◌==◌, ==_iff,
  if◌then◌else◌, Bool-cases, Option-cases, Every, done, raise, os_error, value_error, prod,
}
use czarr.Prelude.Text.{String, str_eq}
use czarr.Prelude.Int.{pos, negsuc, sub_ℕ}
use czarr.Plan.{ShardSpec, DecodePlan}
use czarr.Plan.Keys.{chunk_key, tuple_eq}
use czarr.Plan.ShardIndex.{
  Bytes, Files, read_host, index_nbytes, NdIndex, Indexes, cached, index_offset, fetch_index,
  shard_index,
}
use czarr.Plan.Ranges.Entries.{index_start, index_bytes, IsIndexOf}

pub tuple_eq→eq : (xs ys : List ℕ) → tuple_eq xs ys ≡ true → xs ≡ ys
tuple_eq→eq [] [] h = refl
tuple_eq→eq [] (y ∷ ys) h = cc
tuple_eq→eq (x ∷ xs) [] h = cc
tuple_eq→eq (x ∷ xs) (y ∷ ys) h = elim (Bool-cases (x == y)) [
  | inl e ↦ ap₂ ◌∷◌ ((==_iff x y).0 e) (tuple_eq→eq xs ys (ground arith))
  | inr e ↦ absurd (ground arith)
]

module _ (np : NdIndex) (plan : DecodePlan) (spec : ShardSpec) (files : Files) (per_shard : List ℕ)
    (positive : Every (λ p. 0 < p) per_shard) where
  -- The index of a shard is that of the shard's file.
  abbrev pub IsOnDisk : List ℕ × np.Index → Type 0
  IsOnDisk (shard, index) =
      (content : Bytes) × (files (chunk_key plan shard) ≡ some content)
      × IsIndexOf np per_shard positive index (index_bytes spec per_shard content)

  abbrev pub IsValid : Indexes np → Type 0
  IsValid indexes = Every IsOnDisk indexes

  -- Every file is as long as an index at least.
  abbrev pub Long : Type 0
  Long =
      (path : String) (content : Bytes)
      → files path ≡ some content
      → index_nbytes spec per_shard ≤ length content

  cached-IsOnDisk :
      (indexes : Indexes np) (shard : List ℕ) (index : np.Index)
      → IsValid indexes
      → cached np indexes shard ≡ some index
      → IsOnDisk (shard, index)
  cached-IsOnDisk [] shard index valid h = absurd (ground arith)
  cached-IsOnDisk ((s, i) ∷ indexes) shard index valid h = elim (Bool-cases (tuple_eq s shard)) [
    | inl e ↦
        let key : s ≡ shard = tuple_eq→eq s shard e in
        let kept : some i ≡ some index = simp e at h in
        let value : i ≡ index = cc in subst IsOnDisk (λ k. (key k, value k)) valid.0
    | inr e ↦ cached-IsOnDisk indexes shard index valid.1 (simp e at h)
  ]

  -- What is looked for is found, or its file is missing.
  abbrev pub IsFound : List ℕ → Option np.Index → Type 0
  IsFound shard none = files (chunk_key plan shard) ≡ none
  IsFound shard (some index) = IsOnDisk (shard, index)

  index_offset-eq :
      (size : ℕ)
      → index_nbytes spec per_shard ≤ size
      → index_offset np spec per_shard size ≡ pos (index_start spec per_shard size)
  index_offset-eq size h = elim (Bool-cases (str_eq spec.index_location "end")) [
    | inl e ↦ rw e (ground arith)
    | inr e ↦ rw e
  ]

  index_bytes-length :
      (content : Bytes)
      → index_nbytes spec per_shard ≤ length content
      → length (index_bytes spec per_shard content) ≡ prod per_shard * 16
  index_bytes-length content h =
      let start = index_start spec per_shard (length content) in
      let room : prod per_shard * 16 ≤ length content - start =
        elim (Bool-cases (str_eq spec.index_location "end")) [
          | inl e ↦ rw e (ground arith)
          | inr e ↦ rw e (ground arith)
        ] in
      length-take _ (drop start content)
      ∙ ap (min (prod per_shard * 16)) (length-drop start content)
      ∙ omega arith

  fetch_index-eq :
      (path : String) (content : Bytes)
      → files path ≡ some content
      → index_nbytes spec per_shard ≤ length content
      → (index : np.Index) × (fetch_index np spec (read_host files) per_shard path (length content)
          ≡ done index)
        × IsIndexOf np per_shard positive index (index_bytes spec per_shard content)
  unfolding fetch_index
  fetch_index-eq path content h long =
      let (index, e, e') =
        np.parse_full (index_bytes spec per_shard content) per_shard
          (index_bytes-length content long) in
      let cut =
        take-take (prod per_shard * 16) (index_nbytes spec per_shard)
          (drop (index_start spec per_shard (length content)) content) (omega arith) in
      (index, rw (h, index_offset-eq (length content) long, cut, e), e')

  -- `_shard_index` returns, and with it a cache that is valid again.
  pub shard_index-IsFound :
      (indexes : Indexes np) (shard : List ℕ)
      → IsValid indexes
      → Long
      → (found : Option np.Index) × (indexes' : Indexes np) × (shard_index np spec files
            (read_host files)
            per_shard
            indexes
            shard
            (chunk_key plan shard)
          ≡ (done found, indexes'))
        × IsValid indexes'
        × IsFound shard found
  unfolding shard_index
  shard_index-IsFound indexes shard valid long = elim (Option-cases (cached np indexes shard)) [
    | inr (index, e) ↦
        (some index, indexes, rw e, valid, cached-IsOnDisk indexes shard index valid e)
    | inl e ↦ elim (Option-cases (files (chunk_key plan shard))) [
      | inl gone ↦ (none, indexes, rw (e, gone), valid, gone)
      | inr (content, there) ↦
          let (index, f, f') =
            fetch_index-eq (chunk_key plan shard) content there
              (long (chunk_key plan shard) content there) in
          (
            some index,
            (shard, index) ∷ indexes,
            rw (e, there, f),
            ((content, there, f'), valid),
            (content, there, f'),
          )
    ]
  ]

  -- Where the index is not cached and the file is too short for the entries of one, `_shard_index`
  -- raises and keeps the cache: `OSError` for an index at the end of the file, whose offset is
  -- negative, and `ValueError` for one at the start.
  shard_index_short :
      (indexes : Indexes np) (shard : List ℕ) (path : String) (content : Bytes)
      → cached np indexes shard ≡ none
      → files path ≡ some content
      → length content < prod per_shard * 16
      → shard_index np spec files (read_host files) per_shard indexes shard path
        ≡ (raise (if str_eq spec.index_location "end" then os_error else value_error), indexes)
  unfolding shard_index fetch_index
  shard_index_short indexes shard path content e there short =
      elim (Bool-cases (str_eq spec.index_location "end")) [
        | inl at_end ↦
            let before : sub_ℕ (length content) (index_nbytes spec per_shard)
                ≡ negsuc (index_nbytes spec per_shard - length content - 1) =
              ground arith in
            rw (e, there, at_end, before, there)
        | inr at_start ↦
            let raw = take (prod per_shard * 16) (slice content 0 (index_nbytes spec per_shard)) in
            let small : length raw < prod per_shard * 16 = omega (
              arith,
              length-take (prod per_shard * 16) (take (index_nbytes spec per_shard) content),
              length-take (index_nbytes spec per_shard) content,
            ) in
            rw (e, there, at_start, there, np.parse_other raw per_shard (λ k. omega arith))
      ]

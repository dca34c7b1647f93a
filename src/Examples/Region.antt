-- ===== src/Examples/Region.antt =====
-- arr[3:9] in chunks of 4, of which the second is missing.
use czarr.Prelude.{ℕ, ◌≡◌, refl, inl, true, none, List, [], ◌∷◌, ◌-◌, arith, done}
use czarr.Prelude.Int.{pos_part}
use czarr.Prelude.Division.{ceil}
use czarr.Selection.{Bound, normalize_selection}
use czarr.Plan.{DecodePlan, decode_chunk_shape, selected_units}
use czarr.Plan.Ranges.{ReadRequest}
use czarr.Decode.{no_chain, parse_chain}
use czarr.Decode.Pipeline.{Decoders, cut_all, pair_up, bound_selection, decode_sync}
use czarr.Decode.Region.{decode_sync-get}
use czarr.Examples.Chunks.{Array, functions}

abbrev pub plain_decoders : Decoders functions
plain_decoders = record {
  cut = λ b start stop. (pos_part stop - start, b.1);
  blosc = λ encoded. done encoded;
  nvcomp = λ name nbytes encoded. done encoded;
  unshuffle = λ elementsize flat. done flat;
  full = λ s a. (s, λ x. a);
  empty = λ s. (s, λ x. 0);
  fill = λ out a. (out.0, λ x. a);
  shape-full = λ s a. refl;
  shape-empty = λ s. refl;
  shape-fill = λ out a. refl;
  get-full = λ s a x. refl;
  get-fill = λ out a x. refl;
}

abbrev plan : DecodePlan
plan = record {
  shape = 10 ∷ [];
  itemsize = 1;
  chunk_shape = 4 ∷ [];
  codecs = [];
  shard = none;
  key_separator = "/";
  key_prefix_c = true;
}

abbrev request : ℕ → ReadRequest
request c = record { path = "c"; offset = 0; nbytes = 4; members = (c ∷ [], 0, 4) ∷ [] }

abbrev requests : List ReadRequest
requests = request 0 ∷ request 2 ∷ []

abbrev buffers : List functions.Flat
buffers = (4, λ x. 7) ∷ (4, λ x. 8) ∷ []

abbrev parts : List (List ℕ × functions.Flat)
parts = (0 ∷ [], (4, λ x. 7)) ∷ (2 ∷ [], (4, λ x. 8)) ∷ []

abbrev region : List Bound
region = (3, 9) ∷ []

pub no_codecs : parse_chain [] 1 ≡ done no_chain
unfolding parse_chain
no_codecs = refl

chosen :
    selected_units plan (bound_selection functions plain_decoders region)
    ≡ done ((0 ∷ []) ∷ (1 ∷ []) ∷ (2 ∷ []) ∷ [])
unfolding selected_units normalize_selection ceil
chosen = refl

-- Element 5 of the array is in the missing chunk.
decode_sync-get_example :
    (result : Array) × (decode_sync functions plain_decoders plan 99 requests buffers region none
      ≡ done result)
    × (result.1 (2 ∷ []) ≡ 99)
decode_sync-get_example =
    unfold decode_chunk_shape cut_all pair_up in
    decode_sync-get functions plain_decoders plan 99 requests buffers buffers buffers region none
      no_chain parts parts ((0 ∷ []) ∷ (1 ∷ []) ∷ (2 ∷ []) ∷ []) (2 ∷ []) (omega arith, tt)
      no_codecs refl refl refl refl ((refl, refl), ((refl, refl), tt)) chosen tt (omega arith, tt)
      (inl refl)

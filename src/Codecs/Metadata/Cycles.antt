-- ===== src/Codecs/Metadata/Cycles.antt =====
-- Metadata that src/czarr/codecs writes and reads in the schemas of other libraries: what reading gives,
-- and that writing it again changes nothing.
use czarr.Prelude.{
  ◌≡◌, refl, sym, Bool, none, List, [], ◌∷◌, ◌++◌, Outcome, done, ◌>>=◌, >>=-eq-done,
}
use czarr.Prelude.Int.{ℤ, pos}
use czarr.Prelude.Text.{String}
use czarr.Configure.{Mapping}
use czarr.Configure.Backends.{resolve_backend_for_filter}
use czarr.Codecs.Json.{Json, bool, int, str, Entries, no_entries, entry, get_entry, codec_config}
use czarr.Codecs.Metadata.{plain, Field, base_fields, metadata, from_dict, keywords_of}
use czarr.Codecs.Metadata.Names.{own_field, zstd, gzip, zlib}
use czarr.Codecs.Metadata.Schemas.{
  Conversions, delta, filter_from_dict, to_int, to_str, json_or, config_int, lz4_to_dict,
  gzip_to_dict, zlib_to_dict, zstd_to_dict, blosc_to_dict, blosc_from_dict, delta_to_dict,
  lz4_from_dict,
}

done_eq : (a b : List Field) → ◌≡◌ {A = Outcome (List Field)} (done a) (done b) → a ≡ b
done_eq a b h = cc

module _ (python : Conversions) where
  -- The metadata is read, and the instance writes the same metadata.
  abbrev Cycle :
      (Entries → Outcome (List Field)) → (List Field → Outcome Entries) → Entries → Type 0
  Cycle read write data' =
      (self : List Field) × (read data' ≡ done self) × (write self ≡ done data')

  -- The metadata that numcodecs and zarr write for LZ4, Zstd, Gzip and Zlib is read, and written back as
  -- it was.
  pub standard_schemas :
      (level : ℤ) (checksum : Bool)
      → Cycle lz4_from_dict
          (lz4_to_dict python)
          (metadata "lz4" (entry "acceleration" (int level) no_entries))
        × Cycle (from_dict zstd.cls) (zstd_to_dict python) (
            metadata "zstd"
              (entry "level" (int level) (entry "checksum" (bool checksum) no_entries)))
        × Cycle
            (from_dict gzip.cls)
            (gzip_to_dict python)
            (metadata "gzip" (entry "level" (int level) no_entries))
        × Cycle
            (from_dict zlib.cls)
            (zlib_to_dict python)
            (metadata "zlib" (entry "level" (int level) no_entries))
  unfolding from_dict lz4_from_dict lz4_to_dict zstd_to_dict gzip_to_dict zlib_to_dict
  standard_schemas level checksum =
      ((_, refl, refl), (_, refl, refl), (_, refl, refl), (_, refl, refl))

  config_int-int :
      (config : Entries) (name : String) (default v : Json)
      → config_int python config name default ≡ done v
      → (n : ℤ) × (v ≡ int n)
  config_int-int config name default v h =
      let inner =
        >>=-eq-done (to_int python (plain (json_or (get_entry name config) default)))
          (λ n. done (int n)) h in
      let same : int inner.0 ≡ v = cc in (inner.0, sym same)

  -- The instance of `Blosc` with these values.
  abbrev blosc_with : Json → Json → Json → Json → Json → List Field
  blosc_with cname clevel shuffle typesize blocksize =
      base_fields
      ++ (own_field "cname" cname
          ∷ own_field "clevel" clevel
          ∷ own_field "shuffle" shuffle
          ∷ own_field "typesize" typesize
          ∷ own_field "blocksize" blocksize
          ∷ [])

  blosc_from_dict-blosc_to_dict :
      (cname : String) (clevel typesize blocksize : ℤ) (shuffle : Json)
      → (out : Entries) × (blosc_to_dict python
            (blosc_with (str cname) (int clevel) shuffle (int typesize) (int blocksize))
          ≡ done out)
        × (blosc_from_dict python out
            ≡ done (blosc_with (str cname) (int clevel) shuffle (int typesize) (int blocksize)))
  unfolding blosc_from_dict blosc_to_dict
  blosc_from_dict-blosc_to_dict cname clevel typesize blocksize shuffle = (_, refl, refl)

  -- An instance of `Blosc` that was read from any metadata writes metadata that reads back as the same
  -- instance.
  blosc_to_dict-blosc_from_dict :
      (data' : Entries) (self : List Field)
      → blosc_from_dict python data' ≡ done self
      → (out : Entries) × (blosc_to_dict python self ≡ done out)
        × (blosc_from_dict python out ≡ done self)
  unfolding blosc_from_dict
  blosc_to_dict-blosc_from_dict data' self h =
      let c = >>=-eq-done {w = self} (codec_config data' []) _ h in
      let config = c.0 in
      let level = >>=-eq-done {w = self} (config_int python config "clevel" (int (pos 5))) _ c.2 in
      let size =
        >>=-eq-done {w = self} (config_int python config "typesize" (int (pos 4))) _ level.2 in
      let block =
        >>=-eq-done {w = self} (config_int python config "blocksize" (int (pos 0))) _ size.2 in
      let a = config_int-int config "clevel" (int (pos 5)) level.0 level.1 in
      let b = config_int-int config "typesize" (int (pos 4)) size.0 size.1 in
      let d = config_int-int config "blocksize" (int (pos 0)) block.0 block.1 in
      let cname = to_str python (plain (json_or (get_entry "cname" config) (str "zstd"))) in
      let shuffle = json_or (get_entry "shuffle" config) (str "shuffle") in
      let same : blosc_with (str cname) (int a.0) shuffle (int b.0) (int d.0) ≡ self =
        rw (sym a.1, sym b.1, sym d.1)
          (done_eq (blosc_with (str cname) level.0 shuffle size.0 block.0) self block.2) in
      rw (sym same) (blosc_from_dict-blosc_to_dict cname a.0 b.0 d.0 shuffle)

  -- Reading the metadata of a delta filter gives the filter with the backend that the process's
  -- overrides resolve, also where another writer left a backend in the configuration.
  pub filter_from_dict-delta_to_dict :
      (overrides : Mapping) (dtype astype : String) (leaked : Json)
      → (config : Entries) × (delta_to_dict python
            (own_field "dtype" (str dtype) ∷ own_field "astype" (str astype) ∷ [])
          ≡ done (metadata "delta" config))
        × (filter_from_dict overrides delta (metadata "delta" (entry "backend" leaked config))
            ≡ filter_from_dict overrides delta (metadata "delta" config))
        × (filter_from_dict overrides delta (metadata "delta" config) ≡ (
            resolve_backend_for_filter overrides "delta" none ("cupy" ∷ "cccl" ∷ []) "cupy" >>= λ b.
            done (own_field "dtype" (str dtype) ∷ own_field "astype" (str astype) ∷ [], b)))
  unfolding delta_to_dict filter_from_dict keywords_of
  filter_from_dict-delta_to_dict overrides dtype astype leaked = (_, refl, refl, refl)

-- ===== src/Codecs/Json.antt =====
-- The JSON values of Zarr's metadata, and `codec_config` of src/czarr/codecs/base.py.
use czarr.Prelude.{
  ◌≡◌, refl, ap, Bool, false, not, ◌||◌, Option, none, some, List, [], ◌∷◌, if◌then◌else◌, inl, inr,
  Bool-cases, Outcome, done, raise, type_error,
}
use czarr.Prelude.Int.{ℤ}
use czarr.Prelude.Text.{String, str_eq, eq_iff, str_eq_refl}

-- A JSON value. The entries of an object have distinct names, as a Python dict has.
mutual
  pub data Json : Type 0 where
    null : Json
    bool : Bool → Json
    int : ℤ → Json
    str : String → Json
    array : Items → Json
    object : Entries → Json

  pub data Items : Type 0 where
    no_items : Items
    item : Json → Items → Items

  pub data Entries : Type 0 where
    no_entries : Entries
    entry : String → Json → Entries → Entries

-- `d.get(key)`
unfoldable pub get_entry : String → Entries → Option Json
get_entry key no_entries = none
get_entry key (entry name value rest) = if str_eq name key then some value else get_entry key rest

-- The entries whose names pass the test.
unfoldable pub keep_entries : (String → Bool) → Entries → Entries
keep_entries test no_entries = no_entries
keep_entries test (entry name value rest) =
    let kept = keep_entries test rest in if test name then entry name value kept else kept

abbrev pub one_of : String → List String → Bool
one_of key [] = false
one_of key (k ∷ ks) = str_eq key k || one_of key ks

-- `data.get("configuration", {k: v for k, v in data.items() if k != "name"})`
abbrev pub raw_config : Option Json → Entries → Json
raw_config none data' = object (keep_entries (λ k. not (str_eq k "name")) data')
raw_config (some raw) data' = raw

abbrev pub without : List String → Json → Outcome Entries
without drop (object raw) = done (keep_entries (λ k. not (one_of k drop)) raw)
without drop _ = raise type_error

-- `codec_config`
unfoldable pub codec_config : Entries → List String → Outcome Entries
unfolding get_entry keep_entries
codec_config data' drop = without drop (raw_config (get_entry "configuration" data') data')

-- An entry that is kept is found as before, one that is not is gone.
pub get_entry-keep_entries :
    (test : String → Bool) (d : Entries) (key : String)
    → get_entry key (keep_entries test d) ≡ (if test key then get_entry key d else none)
unfolding get_entry keep_entries
get_entry-keep_entries test no_entries key = elim (Bool-cases (test key)) [
  | inl e ↦ rw e refl
  | inr e ↦ rw e refl
]
get_entry-keep_entries test (entry name value d) key = elim (Bool-cases (str_eq name key)) [
  | inl same ↦
      let e : name ≡ key = (eq_iff name key).0 same in
      elim (Bool-cases (test key)) [
        | inl t ↦ rw (e, t, str_eq_refl key) refl
        | inr t ↦ let ih = get_entry-keep_entries test d key in rw (e, t) (rw t at ih)
      ]
  | inr other ↦
      let ih = get_entry-keep_entries test d key in
      elim (Bool-cases (test name)) [ inl t ↦ rw (t, other) ih | inr t ↦ rw (t, other) ih ]
]

-- Without an entry of the name, nothing is removed.
keep_entries-other :
    (key : String) (d : Entries)
    → get_entry key d ≡ none
    → keep_entries (λ k. not (str_eq k key)) d ≡ d
unfolding get_entry keep_entries
keep_entries-other key no_entries h = refl
keep_entries-other key (entry name value d) h = elim (Bool-cases (str_eq name key)) [
  | inl same ↦ let h' = rw same at h in cc
  | inr other ↦
      let h' = rw other at h in rw other (ap (entry name value) (keep_entries-other key d h'))
]

-- The two forms of a codec's metadata, the configuration as an entry and the configuration inlined
-- beside the name, give the same configuration, for one without entries of these two names.
pub codec_config-inlined :
    (name : Json) (d : Entries) (drop : List String)
    → get_entry "name" d ≡ none
    → get_entry "configuration" d ≡ none
    → codec_config (entry "name" name d) drop
      ≡ codec_config (entry "name" name (entry "configuration" (object d) no_entries)) drop
unfolding codec_config
codec_config-inlined name d drop no_name no_configuration =
    rw (no_configuration, keep_entries-other "name" d no_name) refl

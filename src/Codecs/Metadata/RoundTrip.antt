-- ===== src/Codecs/Metadata/RoundTrip.antt =====
-- Reading back what `CudaBytesBytesCodec.to_dict` of src/czarr/codecs/base.py wrote.
use czarr.Prelude.{
  ◌≡◌, refl, sym, ap, ◌∙◌, inl, inr, Bool, true, false, not, none, List, [], ◌∷◌, Every, Every-mono,
  if◌then◌else◌, Bool-cases, done,
}
use czarr.Prelude.Text.{String, str_eq, eq_iff, str_eq_refl}
use czarr.Codecs.Json.{entry, get_entry, keep_entries, one_of, codec_config}
use czarr.Codecs.Metadata.{
  Checksum, checksum_value, checksum_of, Value, plain, policy, Field, CodecClass, json_of,
  config_of, to_dict, Keywords, keyword, given_or, with_value, fill_fields, known_keywords,
  names_of, construct, policy_value, with_policy, from_dict, no_compute_no_verify,
  compute_and_no_verify, no_compute_and_verify_if_present, compute_and_verify_if_present,
  compute_and_verify,
}

-- The field named "checksum_policy" holds a member of the enum, and no other does.
abbrev pub TypedValue : String → Value → Type 0
TypedValue name (policy c) = str_eq name "checksum_policy" ≡ true
TypedValue name (plain v) = str_eq name "checksum_policy" ≡ false

-- The second list has the fields of the first, with values of its own.
abbrev pub IsInstance : List Field → List Field → Type 0
IsInstance [] [] = Unit
IsInstance (c ∷ cs) (f ∷ fs) =
    (f.name ≡ c.name) × (f.compared ≡ c.compared) × TypedValue f.name f.value × IsInstance cs fs
IsInstance _ _ = ⊥

abbrev pub Distinct : List String → Type 0
Distinct [] = Unit
Distinct (k ∷ ks) = (one_of k ks ≡ false) × Distinct ks

-- What reading back gives: the fields that are compared, and the defaults of the others.
abbrev pub recalled : List Field → List Field → List Field
recalled [] fs = []
recalled (c ∷ cs) [] = []
recalled (c ∷ cs) (f ∷ fs) = (if f.compared then f else c) ∷ recalled cs fs

checksum_of-checksum_value : (c : Checksum) → checksum_of (checksum_value c) ≡ done c
checksum_of-checksum_value no_compute_no_verify = refl
checksum_of-checksum_value compute_and_no_verify = refl
checksum_of-checksum_value no_compute_and_verify_if_present = refl
checksum_of-checksum_value compute_and_verify_if_present = refl
checksum_of-checksum_value compute_and_verify = refl

-- The keyword arguments of the compared fields.
abbrev keywords_from : List Field → Keywords
keywords_from [] = []
keywords_from (f ∷ fs) =
    if f.compared then (f.name, f.value) ∷ keywords_from fs else keywords_from fs

keep_entries-config_of :
    (test : String → Bool) (fs : List Field)
    → Every (λ f. test f.name ≡ true) fs
    → keep_entries test (config_of fs) ≡ config_of fs
unfolding keep_entries config_of
keep_entries-config_of test [] h = refl
keep_entries-config_of test (f ∷ fs) h = elim (Bool-cases f.compared) [
  | inl e ↦ rw (e, h.0) (ap (entry f.name (json_of f.value)) (keep_entries-config_of test fs h.1))
  | inr e ↦ rw e (keep_entries-config_of test fs h.1)
]

policy_value-json_of :
    (name : String) (v : Value)
    → TypedValue name v
    → (if str_eq name "checksum_policy" then policy_value (json_of v) else done (plain (json_of v)))
      ≡ done v
policy_value-json_of name (policy c) h = rw (h, checksum_of-checksum_value c) refl
policy_value-json_of name (plain j) h = rw h refl

with_policy-config_of :
    (cs fs : List Field) → IsInstance cs fs → with_policy (config_of fs) ≡ done (keywords_from fs)
unfolding with_policy config_of
with_policy-config_of [] [] h = refl
with_policy-config_of [] (f ∷ fs) h = absurd h
with_policy-config_of (c ∷ cs) [] h = absurd h
with_policy-config_of (c ∷ cs) (f ∷ fs) h = elim (Bool-cases f.compared) [
  | inl e ↦ rw (e, policy_value-json_of f.name f.value h.2, with_policy-config_of cs fs h.3) refl
  | inr e ↦ rw (e, with_policy-config_of cs fs h.3) refl
]

known_keywords-keywords_from :
    (names : List String) (fs : List Field)
    → Every (λ f. one_of f.name names ≡ true) fs
    → known_keywords names (keywords_from fs) ≡ true
unfolding known_keywords
known_keywords-keywords_from names [] h = refl
known_keywords-keywords_from names (f ∷ fs) h = elim (Bool-cases f.compared) [
  | inl e ↦ rw (e, h.0) (known_keywords-keywords_from names fs h.1)
  | inr e ↦ rw e (known_keywords-keywords_from names fs h.1)
]

-- A keyword that names no field changes nothing.
fill_fields-other :
    (cs : List Field) (k : String) (v : Value) (ks : Keywords)
    → one_of k (names_of cs) ≡ false
    → fill_fields cs ((k, v) ∷ ks) ≡ fill_fields cs ks
unfolding fill_fields
fill_fields-other [] k v ks h = refl
fill_fields-other (c ∷ cs) k v ks h = elim (Bool-cases (str_eq k c.name)) [
  | inl e ↦ let h' = rw e at h in cc
  | inr e ↦
      let h' = rw e at h in
      rw e (
        ap (◌∷◌ (with_value c (given_or (keyword ks c.name) c.value)))
          (fill_fields-other cs k v ks h'))
]

str_eq_swap : (a b : String) → str_eq a b ≡ false → str_eq b a ≡ false
str_eq_swap a b h = elim (Bool-cases (str_eq b a)) [
  | inl e ↦ let same : b ≡ a = (eq_iff b a).0 e in let h' = rw (same, str_eq_refl a) at h in cc
  | inr e ↦ e
]

keyword-keywords_from :
    (cs fs : List Field) (name : String)
    → IsInstance cs fs
    → one_of name (names_of cs) ≡ false
    → keyword (keywords_from fs) name ≡ none
keyword-keywords_from [] [] name h out = refl
keyword-keywords_from [] (f ∷ fs) name h out = absurd h
keyword-keywords_from (c ∷ cs) [] name h out = absurd h
keyword-keywords_from (c ∷ cs) (f ∷ fs) name h out = elim (Bool-cases (str_eq name c.name)) [
  | inl e ↦ let out' = rw e at out in cc
  | inr e ↦
      let out' = rw e at out in
      let ih = keyword-keywords_from cs fs name h.3 out' in
      let other = rw (sym h.0) at (str_eq_swap name c.name e) in
      elim (Bool-cases f.compared) [ inl t ↦ rw (t, other) ih | inr t ↦ rw t ih ]
]

-- Filling the fields of the class with the keywords of an instance.
fill_fields-keywords_from :
    (cs fs : List Field)
    → Distinct (names_of cs)
    → IsInstance cs fs
    → fill_fields cs (keywords_from fs) ≡ recalled cs fs
unfolding fill_fields
fill_fields-keywords_from [] [] distinct h = refl
fill_fields-keywords_from [] (f ∷ fs) distinct h = absurd h
fill_fields-keywords_from (c ∷ cs) [] distinct h = absurd h
fill_fields-keywords_from (c ∷ cs) (f ∷ fs) distinct h =
    let ih = fill_fields-keywords_from cs fs distinct.1 h.3 in
    elim (Bool-cases f.compared) [
      | inl t ↦
          let found : str_eq f.name c.name ≡ true = rw h.0 (str_eq_refl c.name) in
          let skip = fill_fields-other cs f.name f.value (keywords_from fs) (rw h.0 distinct.0) in
          let flag : c.compared ≡ true = sym h.1 ∙ t in
          let same : with_value c f.value
              ≡ record { name = f.name; compared = true; value = f.value } =
            λ i. record { name = sym h.0 i; compared = flag i; value = f.value } in
          rw (t, found, skip, ih) (ap (λ g. g ∷ recalled cs fs) same)
      | inr t ↦ rw (t, keyword-keywords_from cs fs c.name h.3 distinct.0, ih) refl
    ]

members : (ks : List String) → Every (λ k. one_of k ks ≡ true) ks
members [] = tt
members (k ∷ ks) = (
  rw (str_eq_refl k) refl,
  Every-mono (λ j e. elim (Bool-cases (str_eq j k)) [ inl t ↦ rw t refl | inr t ↦ rw t e ]) (ks)
      (members ks),
)

member_names :
    (names : List String) (cs fs : List Field)
    → IsInstance cs fs
    → Every (λ k. one_of k names ≡ true) (names_of cs)
    → Every (λ f. one_of f.name names ≡ true) fs
member_names names [] [] h m = tt
member_names names [] (f ∷ fs) h m = absurd h
member_names names (c ∷ cs) [] h m = absurd h
member_names names (c ∷ cs) (f ∷ fs) h m = (rw h.0 m.0, member_names names cs fs h.3 m.1)

all_kept : (fs : List Field) → Every (λ f. not (one_of f.name []) ≡ true) fs
all_kept [] = tt
all_kept (f ∷ fs) = (refl, all_kept fs)

-- For a class that keeps the `to_dict` and `from_dict` of `CudaBytesBytesCodec`, as ANS, Bitcomp,
-- Cascaded, Snappy, Deflate and GDeflate do, and as LZ4, Zstd, Gzip, Zlib and Blosc do not: reading the
-- metadata that its codec wrote gives an instance with the same values in every field that is compared
-- and the default in the others. The conditions: the fields of the class have distinct names, and the
-- instance holds a checksum policy in the field named "checksum_policy" and in no other.
pub from_dict-to_dict :
    (cls : CodecClass) (self : List Field)
    → Distinct (names_of cls.fields)
    → IsInstance cls.fields self
    → from_dict cls (to_dict cls self) ≡ done (recalled cls.fields self)
unfolding from_dict to_dict codec_config construct get_entry
from_dict-to_dict cls self distinct h =
    let known =
      member_names (names_of cls.fields) cls.fields self h (members (names_of cls.fields)) in
    rw
      (
        keep_entries-config_of (λ k. not (one_of k [])) self (all_kept self),
        keep_entries-config_of (λ k. one_of k (names_of cls.fields)) self known,
        with_policy-config_of cls.fields self h,
        known_keywords-keywords_from (names_of cls.fields) self known,
        fill_fields-keywords_from cls.fields self distinct h,
      )
      refl

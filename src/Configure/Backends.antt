-- ===== src/Configure/Backends.antt =====
-- src/czarr/codecs/_backend.py: the backend of a filter, which `BackendFilter.__post_init__` of
-- src/czarr/codecs/filters/_base.py resolves.
use czarr.Prelude.{
  ◌≡◌, ◌⊎◌, refl, inl, inr, Bool, true, false, ◌||◌, Option, none, some, List, [], ◌∷◌,
  if◌then◌else◌, Bool-cases, Outcome, done, raise, value_error,
}
use czarr.Prelude.Text.{String, str_eq}
use czarr.Configure.{Mapping, or_else}

abbrev pub member : String → List String → Bool
member backend [] = false
member backend (b ∷ supported) = str_eq b backend || member backend supported

abbrev pub if_supported : String → List String → Outcome String
if_supported backend supported =
    if member backend supported then done backend else raise value_error

abbrev pub override_or : Option String → List String → String → Outcome String
override_or none supported default = if_supported default supported
override_or (some override) supported default = if_supported override supported

abbrev pub instance_or : Option String → Option String → List String → String → Outcome String
instance_or none override supported default = override_or override supported default
instance_or (some backend) override supported default = if_supported backend supported

-- `resolve_backend_for_filter`
unfoldable pub resolve_backend_for_filter :
    Mapping → String → Option String → List String → String → Outcome String
resolve_backend_for_filter overrides codec_name instance_backend supported default =
    instance_or instance_backend (overrides codec_name) supported default

-- A backend that is resolved is one that the codec supports, and it is the first that there is of the
-- instance's, the override's and the default; where that one is not supported, ValueError is raised.
resolve_backend-member :
    (overrides : Mapping) (codec : String) (own : Option String) (supported : List String)
    (default : String)
    → (b : String) × (or_else own (or_else (overrides codec) (some default)) ≡ some b)
      × ((member b supported ≡ true)
            × (resolve_backend_for_filter overrides codec own supported default ≡ done b)
          ⊎ (member b supported ≡ false)
            × (resolve_backend_for_filter overrides codec own supported default
                ≡ raise value_error))
unfolding resolve_backend_for_filter
resolve_backend-member overrides codec own supported default = by_choice own (overrides codec)
  where
    checked :
        (b : String)
        → (member b supported ≡ true) × (if_supported b supported ≡ done b)
          ⊎ (member b supported ≡ false) × (if_supported b supported ≡ raise value_error)
    checked b = elim (Bool-cases (member b supported)) [
      | inl e ↦ inl (e, rw e refl)
      | inr e ↦ inr (e, rw e refl)
    ]

    by_choice :
        (own override : Option String)
        → (b : String) × (or_else own (or_else override (some default)) ≡ some b)
          × ((member b supported ≡ true) × (instance_or own override supported default ≡ done b)
              ⊎ (member b supported ≡ false)
                × (instance_or own override supported default ≡ raise value_error))
    by_choice (some b) override = (b, refl, checked b)
    by_choice none (some b) = (b, refl, checked b)
    by_choice none none = (default, refl, checked default)

-- ===== src/Retrieval/Filters/Namespace.antt =====
-- The filters that a search may ask of the namespace of a dataset, as datasets/schema.py compiles it.
use Prim.Native.String.{String}
use text.Mathlib.Text.{◌==◌ as str_eq}
use text.Mathlib.TextEquality.{eq_iff}
use pufferlab.Prelude.{
  ◌≡◌, refl, sym, ap, ◌∙◌, Bool, true, false, not, none, some, All, All-map, arith, Bool-cases,
  Option-cases, Option, false, if◌then◌else◌, &&-true, is_not, inl, inr, ◌∷◌, [], ◌||◌, every,
}
use pufferlab.Prelude.Result.{ok, some-injective}
use pufferlab.Prelude.Text.{is_blank}
use pufferlab.Datasets.Models.{DatasetManifest, is_valid_manifest}
use pufferlab.Datasets.Schema.{NamespaceAttributeWriteSpec, compile_namespace_write_spec}
use pufferlab.Evals.Float.{Float}
use pufferlab.Retrieval.Filters.{FilterNode}
use pufferlab.Retrieval.Filters.Validator.{
  or_else, is_filterable, Attributes, attribute_of, validate,
}
use pufferlab.Retrieval.Filters.Accepted.{predicates, IsAccepted, validate-IsAccepted}

not_empty : (s : String) → is_blank s ≡ false → str_eq s "" ≡ false
unfolding is_blank
not_empty s h = elim (Bool-cases (str_eq s "")) [
  | inl e ↦ let blank : is_blank s ≡ true = ap is_blank ((eq_iff s "").0 e) in ground arith
  | inr e ↦ e
]

module _ {F : Type 0} ⦃f : Float F⦄ (m : DatasetManifest F) where
  abbrev attributes : Attributes F
  attributes = (compile_namespace_write_spec m).attributes

  no_empty_name : is_blank m.vector.attribute ≡ false → attribute_of "" attributes ≡ none
  unfolding compile_namespace_write_spec
  no_empty_name named = rw (not_empty m.vector.attribute named) refl

  -- `external_id`, or an attribute that is not filtered.
  abbrev is_closed : (String × NamespaceAttributeWriteSpec F) → Bool
  is_closed attribute = str_eq attribute.0 "external_id" || not (is_filterable attribute.1)

  own_of :
      (others : Option (NamespaceAttributeWriteSpec F)) (named : Bool)
      (attribute specification : NamespaceAttributeWriteSpec F)
      → others ≡ none
      → or_else others (if named then some attribute else none) ≡ some specification
      → (named ≡ true) × (attribute ≡ specification)
  own_of none true attribute specification h e = (refl, some-injective e)
  own_of none false attribute specification h e = cc
  own_of (some other) named attribute specification h e = cc

  found_closed :
      (field : String) (specification : NamespaceAttributeWriteSpec F) (all : Attributes F)
      → every is_closed all ≡ true
      → attribute_of field all ≡ some specification
      → is_filterable specification ≡ true
      → field ≡ "external_id"
  found_closed field specification [] closed found filterable = cc
  found_closed field specification (attribute ∷ all) closed found filterable =
      elim (Option-cases (attribute_of field all)) [
        | inl absent ↦
            let own =
              own_of (attribute_of field all) (str_eq attribute.0 field) attribute.1 specification
                absent found in
            let unique = first_closed (ap is_filterable own.1 ∙ filterable) in
            sym ((eq_iff attribute.0 field).0 own.0) ∙ (eq_iff attribute.0 "external_id").0 unique
        | inr (last, e) ↦
            found_closed field specification all (ground arith)
              (e
                ∙ ap (λ o. or_else o (if str_eq attribute.0 field then some attribute.1 else none))
                    (sym e)
                ∙ found)
              filterable
      ]
    where
      first_closed : is_filterable attribute.1 ≡ true → str_eq attribute.0 "external_id" ≡ true
      first_closed h = ground arith

  -- Of the attributes of a dataset, the namespace filters only `external_id`.
  attributes-closed : every is_closed attributes ≡ true
  unfolding compile_namespace_write_spec
  attributes-closed = ground arith

  -- Over the compiled attributes of a dataset, an accepted filter expression names no field other
  -- than external_id, in each of its predicates. The manifest of the dataset is valid.
  pub validate-external_id :
      (has_http_url : String → Bool) (expression : FilterNode F)
      → is_valid_manifest has_http_url m ≡ true
      → validate attributes expression ≡ ok tt
      → All (λ p. p.field ≡ "external_id") (predicates expression)
  unfolding IsAccepted
  validate-external_id has_http_url expression valid accepted =
      let served =
        (validate-IsAccepted attributes expression
            (no_empty_name (is_not (&&-true _ _ (&&-true _ _ (&&-true _ _ valid).0).0).1))).0
          accepted in
      All-map
        (λ p s.
          found_closed p.field s.specification attributes attributes-closed s.found s.filterable)
        (predicates expression) served.1

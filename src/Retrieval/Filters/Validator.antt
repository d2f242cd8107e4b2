-- ===== src/Retrieval/Filters/Validator.antt =====
-- retrieval/filter_validation.py: `FixtureFilterValidator`, over the attributes of a namespace.
use Prim.Native.String.{String, [] as no_text, ◌∷◌ as text_cons}
use text.Mathlib.Text.{◌==◌ as str_eq, starts_with}
use pufferlab.Prelude.{
  Bool, true, false, not, ◌&&◌, Option, none, some, List, [], ◌∷◌, ◌==◌, some_of, if◌then◌else◌,
}
use pufferlab.Prelude.Result.{Result, ok, err, ◌>>=◌, ◌>>◌, raise_if}
use pufferlab.Datasets.Schema.{NamespaceAttributeWriteSpec}
use pufferlab.Evals.Float.{Float}
use pufferlab.Retrieval.Filters.{
  Json, null, string, integer, real, boolean, array, object, Items, no_items, item, Members,
  no_members, member, PredicateOp, eq, not_eq, lt, lte, gt, gte, in_list, contains_any,
  FilterPredicate, FilterNode, predicate, logical, FilterNodes, no_nodes, node, child_count,
  is_negation,
}

-- Why `invalid_search` is raised.
pub data FilterError : Type 0 where
  invalid_expression field_not_available field_not_filterable value_not_finite : FilterError
  invalid_value : FilterError

-- `attribute_type.startswith("[]")`
abbrev pub is_array_type : String → Bool
is_array_type attribute_type = starts_with attribute_type "[]"

abbrev without_two : String → String
without_two no_text = no_text
without_two (text_cons c no_text) = no_text
without_two (text_cons c (text_cons d rest)) = rest

abbrev pub scalar_type : String → String
scalar_type attribute_type =
    if is_array_type attribute_type then without_two attribute_type else attribute_type

abbrev is_among : String → List String → Bool
is_among s names = some_of (str_eq s) names

abbrev orderable_types : List String
orderable_types = "string" ∷ "datetime" ∷ "int" ∷ "uint" ∷ "float" ∷ []

-- `_matches_scalar`
unfoldable pub matches_scalar : {F : Type 0} → Json F → String → Bool → Bool
matches_scalar null type_name allow_null = allow_null
matches_scalar (array items) type_name allow_null = false
matches_scalar (object entries) type_name allow_null = false
matches_scalar (string s) type_name allow_null =
    is_among type_name ("string" ∷ "datetime" ∷ "uuid" ∷ [])
matches_scalar (boolean b) type_name allow_null = str_eq type_name "bool"
matches_scalar (integer n) type_name allow_null = is_among type_name ("int" ∷ "uint" ∷ "float" ∷ [])
matches_scalar (real x) type_name allow_null = str_eq type_name "float"

-- `all(_matches_scalar(item, scalar_type, allow_null=False) for item in value)`
abbrev all_match : {F : Type 0} → Items F → String → Bool
all_match no_items type_name = true
all_match (item value items) type_name =
    matches_scalar value type_name false && all_match items type_name

abbrev pub is_list_of : {F : Type 0} → Json F → String → Bool
is_list_of (array items) type_name = all_match items type_name
is_list_of _ type_name = false

-- `_operator_accepts_value` of an operator for an order
abbrev pub accepts_ordered : {F : Type 0} → Json F → Bool → String → Bool
accepts_ordered value is_array scalar =
    not is_array && is_among scalar orderable_types && matches_scalar value scalar false

abbrev pub accepts_value : {F : Type 0} → PredicateOp → Json F → Bool → String → Bool
accepts_value in_list value is_array scalar = not is_array && is_list_of value scalar
accepts_value contains_any value is_array scalar = is_array && is_list_of value scalar
accepts_value eq value is_array scalar = not is_array && matches_scalar value scalar true
accepts_value not_eq value is_array scalar = not is_array && matches_scalar value scalar true
accepts_value lt value is_array scalar = accepts_ordered value is_array scalar
accepts_value lte value is_array scalar = accepts_ordered value is_array scalar
accepts_value gt value is_array scalar = accepts_ordered value is_array scalar
accepts_value gte value is_array scalar = accepts_ordered value is_array scalar

-- `_operator_accepts_value`
unfoldable pub operator_accepts_value :
    {F : Type 0} → PredicateOp → Json F → NamespaceAttributeWriteSpec F → Bool
unfolding matches_scalar
operator_accepts_value op value specification =
    accepts_value op value (is_array_type specification.type_name)
      (scalar_type specification.type_name)

-- `filterable is not True`
abbrev pub is_filterable : {F : Type 0} → NamespaceAttributeWriteSpec F → Bool
is_filterable specification = elim specification.filterable [ none ↦ false | some b ↦ b ]

abbrev pub Attributes : Type 0 → Type 0
Attributes F = List (String × NamespaceAttributeWriteSpec F)

abbrev pub or_else : {A : Type 0} → Option A → Option A → Option A
or_else (some a) other = some a
or_else none other = other

-- `self._attributes.get(field)`: the dict keeps the last attribute of a name.
abbrev pub attribute_of :
    {F : Type 0} → String → Attributes F → Option (NamespaceAttributeWriteSpec F)
attribute_of name [] = none
attribute_of name (attribute ∷ attributes) =
    or_else (attribute_of name attributes)
      (if str_eq attribute.0 name then some attribute.1 else none)

abbrev pub or_not_available : {A : Type 0} → Option A → Result FilterError A
or_not_available none = err field_not_available
or_not_available (some a) = ok a

module _ {F : Type 0} ⦃f : Float F⦄ where
  -- `_is_finite_json`
  unfoldable mutual
    pub is_finite_json : Json F → Bool
    is_finite_json null = true
    is_finite_json (string s) = true
    is_finite_json (integer n) = true
    is_finite_json (real x) = f.is_finite x
    is_finite_json (boolean b) = true
    is_finite_json (array items) = are_finite_items items
    is_finite_json (object entries) = are_finite_members entries

    pub are_finite_items : Items F → Bool
    are_finite_items no_items = true
    are_finite_items (item value items) = is_finite_json value && are_finite_items items

    pub are_finite_members : Members F → Bool
    are_finite_members no_members = true
    are_finite_members (member key value entries) =
        is_finite_json value && are_finite_members entries

  module _ (attributes : Attributes F) where
    -- `_validate_predicate`
    unfoldable pub validate_predicate : FilterPredicate F → Result FilterError (Unit {0})
    unfolding is_finite_json operator_accepts_value
    validate_predicate p = do
      specification ← or_not_available (attribute_of p.field attributes)
      raise_if (not (is_filterable specification)) field_not_filterable
      raise_if (not (is_finite_json p.value)) value_not_finite
      raise_if (not (operator_accepts_value p.op p.value specification)) invalid_value

    -- `validate`
    unfoldable mutual
      unfolding validate_predicate

      pub validate : FilterNode F → Result FilterError (Unit {0})
      validate (predicate p) = validate_predicate p
      validate (logical op children) = do
        raise_if (child_count children == 0) invalid_expression
        raise_if (is_negation op && not (child_count children == 1)) invalid_expression
        validate_all children

      pub validate_all : FilterNodes F → Result FilterError (Unit {0})
      validate_all no_nodes = ok tt
      validate_all (node child children) = validate child >> validate_all children

-- ===== src/Retrieval/Filters/Shapes.antt =====
-- The values that an operator takes have the shape that `validate_value_shape` asks for.
use Prim.Native.String.{String, count, [] as no_text, ◌∷◌ as text_cons}
use text.Mathlib.TextLemmas.{length-cons}
use pufferlab.Prelude.{ℕ, suc, ◌≡◌, refl, sym, Bool, true, false, none, some, leb, arith}
use pufferlab.Datasets.Schema.{NamespaceAttributeWriteSpec}
use pufferlab.Retrieval.Filters.{
  Json, null, string, integer, real, boolean, array, object, PredicateOp, eq, not_eq, lt, lte, gt,
  gte, in_list, contains_any, is_list, is_container, has_valid_shape,
}
use pufferlab.Retrieval.Filters.Validator.{
  matches_scalar, is_list_of, accepts_value, Attributes, attribute_of,
}

is_list_of-is_list :
    {F : Type 0} (value : Json F) (scalar : String)
    → is_list_of value scalar ≡ true
    → is_list value ≡ true
is_list_of-is_list (array items) scalar h = refl
is_list_of-is_list null scalar h = h
is_list_of-is_list (string s) scalar h = h
is_list_of-is_list (integer n) scalar h = h
is_list_of-is_list (real x) scalar h = h
is_list_of-is_list (boolean b) scalar h = h
is_list_of-is_list (object entries) scalar h = h

matches_scalar-is_container :
    {F : Type 0} (value : Json F) (scalar : String) (allow_null : Bool)
    → matches_scalar value scalar allow_null ≡ true
    → is_container value ≡ false
unfolding matches_scalar
matches_scalar-is_container null scalar allow_null h = refl
matches_scalar-is_container (string s) scalar allow_null h = refl
matches_scalar-is_container (integer n) scalar allow_null h = refl
matches_scalar-is_container (real x) scalar allow_null h = refl
matches_scalar-is_container (boolean b) scalar allow_null h = refl
matches_scalar-is_container (array items) scalar allow_null h = sym h
matches_scalar-is_container (object entries) scalar allow_null h = sym h

pub accepts_value-has_valid_shape :
    {F : Type 0} (field : String) (op : PredicateOp) (value : Json F) (is_array : Bool)
    (scalar : String)
    → accepts_value op value is_array scalar ≡ true
    → has_valid_shape (record { field = field; op = op; value = value }) ≡ true
unfolding matches_scalar
accepts_value-has_valid_shape field in_list value is_array scalar h =
    rw (is_list_of-is_list value scalar (ground arith)) refl
accepts_value-has_valid_shape field contains_any value is_array scalar h =
    rw (is_list_of-is_list value scalar (ground arith)) refl
accepts_value-has_valid_shape field eq value is_array scalar h =
    rw (matches_scalar-is_container value scalar true (ground arith)) refl
accepts_value-has_valid_shape field not_eq value is_array scalar h =
    rw (matches_scalar-is_container value scalar true (ground arith)) refl
accepts_value-has_valid_shape field lt value is_array scalar h =
    rw (matches_scalar-is_container value scalar false (ground arith)) refl
accepts_value-has_valid_shape field lte value is_array scalar h =
    rw (matches_scalar-is_container value scalar false (ground arith)) refl
accepts_value-has_valid_shape field gt value is_array scalar h =
    rw (matches_scalar-is_container value scalar false (ground arith)) refl
accepts_value-has_valid_shape field gte value is_array scalar h =
    rw (matches_scalar-is_container value scalar false (ground arith)) refl

positive : (n : ℕ) → leb 1 (suc n) ≡ true
positive n = ground arith

pub named_field :
    {F : Type 0} (field : String) (attributes : Attributes F)
    (specification : NamespaceAttributeWriteSpec F)
    → attribute_of "" attributes ≡ none
    → attribute_of field attributes ≡ some specification
    → leb 1 (count field) ≡ true
named_field no_text attributes specification h k = cc
named_field (text_cons c s) attributes specification h k = rw (length-cons c s) (positive (count s))

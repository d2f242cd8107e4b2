-- ===== src/Retrieval/Filters.antt =====
-- contracts/filters.py: the filters of a search and the validators of their models.
pub mod Validator
pub mod Shapes
pub mod Accepted
pub mod Namespace
use Prim.Native.String.{String, count, [] as no_text, ◌∷◌ as text_cons}
use text.Mathlib.Text.{◌==◌ as str_eq, starts_with}
use pufferlab.Prelude.{
  ℕ, zero, suc, Bool, true, false, not, ◌&&◌, ◌||◌, Option, none, some, List, [], ◌∷◌, leb, ◌==◌,
  some_of, if◌then◌else◌,
}
use pufferlab.Prelude.Int.{ℤ}
use pufferlab.Prelude.Result.{Result, ok, err, ◌>>=◌, ◌>>◌, raise_if}
use pufferlab.Datasets.Schema.{NamespaceAttributeWriteSpec}
use pufferlab.Evals.Float.{Float}

-- `JsonValue`
mutual
  pub data Json (F : Type 0) : Type 0 where
    null : Json F
    string : String → Json F
    integer : ℤ → Json F
    real : F → Json F
    boolean : Bool → Json F
    array : Items F → Json F
    object : Members F → Json F

  pub data Items (F : Type 0) : Type 0 where
    no_items : Items F
    item : Json F → Items F → Items F

  pub data Members (F : Type 0) : Type 0 where
    no_members : Members F
    member : String → Json F → Members F → Members F

pub data PredicateOp : Type 0 where
  eq not_eq lt lte gt gte in_list contains_any : PredicateOp

pub data LogicalOp : Type 0 where
  logical_and logical_or logical_not : LogicalOp

pub record FilterPredicate (F : Type 0) : Type 0 where
  pub field : String
  pub op : PredicateOp
  pub value : Json F

mutual
  pub data FilterNode (F : Type 0) : Type 0 where
    predicate : FilterPredicate F → FilterNode F
    logical : LogicalOp → FilterNodes F → FilterNode F

  pub data FilterNodes (F : Type 0) : Type 0 where
    no_nodes : FilterNodes F
    node : FilterNode F → FilterNodes F → FilterNodes F

abbrev pub child_count : {F : Type 0} → FilterNodes F → ℕ
child_count no_nodes = 0
child_count (node child children) = suc (child_count children)

abbrev pub is_negation : LogicalOp → Bool
is_negation logical_and = false
is_negation logical_or = false
is_negation logical_not = true

abbrev pub is_list : {F : Type 0} → Json F → Bool
is_list (array items) = true
is_list _ = false

abbrev pub is_container : {F : Type 0} → Json F → Bool
is_container (array items) = true
is_container (object entries) = true
is_container _ = false

-- `array_operators`
abbrev takes_list : PredicateOp → Bool
takes_list in_list = true
takes_list contains_any = true
takes_list _ = false

-- `validate_value_shape`
abbrev pub has_valid_shape : {F : Type 0} → FilterPredicate F → Bool
has_valid_shape p =
    not (takes_list p.op && not (is_list p.value))
    && not (not (takes_list p.op) && is_container p.value)

abbrev pub is_valid_predicate : {F : Type 0} → FilterPredicate F → Bool
is_valid_predicate p = leb 1 (count p.field) && has_valid_shape p

-- `min_length=1` of the children, and `validate_arity`
abbrev pub has_valid_arity : LogicalOp → ℕ → Bool
has_valid_arity op children = leb 1 children && not (is_negation op && not (children == 1))

-- The validators of `FilterPredicate` and of `FilterLogical`, in a whole expression.
unfoldable mutual
  pub is_valid_node : {F : Type 0} → FilterNode F → Bool
  is_valid_node (predicate p) = is_valid_predicate p
  is_valid_node (logical op children) =
      has_valid_arity op (child_count children) && are_valid_nodes children

  pub are_valid_nodes : {F : Type 0} → FilterNodes F → Bool
  are_valid_nodes no_nodes = true
  are_valid_nodes (node child children) = is_valid_node child && are_valid_nodes children

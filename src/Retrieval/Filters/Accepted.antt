-- ===== src/Retrieval/Filters/Accepted.antt =====
-- What `FixtureFilterValidator` accepts, the validators of the filter models accept, and it asks for
-- nothing that the namespace does not filter.
use pufferlab.Prelude.{
  ℕ, ◌≡◌, ◌↔◌, refl, Bool, true, false, not, ◌&&◌, Option, none, some, List, [], ◌∷◌, ◌++◌, ◌==◌,
  All, All-append, arith,
}
use pufferlab.Prelude.Result.{ok, raise_if, >>=-eq-ok, raise_if-ok}
use pufferlab.Datasets.Schema.{NamespaceAttributeWriteSpec}
use pufferlab.Evals.Float.{Float}
use pufferlab.Retrieval.Filters.{
  LogicalOp, FilterPredicate, FilterNode, predicate, logical, FilterNodes, no_nodes, node,
  child_count, is_negation, is_valid_predicate, has_valid_arity, is_valid_node, are_valid_nodes,
}
use pufferlab.Retrieval.Filters.Validator.{
  invalid_expression, field_not_filterable, value_not_finite, invalid_value, operator_accepts_value,
  is_filterable, Attributes, attribute_of, or_not_available, is_finite_json, validate_predicate,
  validate, validate_all,
}
use pufferlab.Retrieval.Filters.Shapes.{accepts_value-has_valid_shape, named_field}

-- The predicates of an expression, from the left.
unfoldable mutual
  pub predicates : {F : Type 0} → FilterNode F → List (FilterPredicate F)
  predicates (predicate p) = p ∷ []
  predicates (logical op children) = all_predicates children

  pub all_predicates : {F : Type 0} → FilterNodes F → List (FilterPredicate F)
  all_predicates no_nodes = []
  all_predicates (node child children) = predicates child ++ all_predicates children

module _ {F : Type 0} ⦃f : Float F⦄ (attributes : Attributes F) where
  -- The namespace filters the field, and takes the value for the operator.
  pub record IsServed (p : FilterPredicate F) : Type 0 where
    pub specification : NamespaceAttributeWriteSpec F
    pub found : attribute_of p.field attributes ≡ some specification
    pub filterable : is_filterable specification ≡ true
    pub finite : is_finite_json p.value ≡ true
    pub accepted : operator_accepts_value p.op p.value specification ≡ true

  or_not_available-ok :
      (found : Option (NamespaceAttributeWriteSpec F))
      (specification : NamespaceAttributeWriteSpec F)
      → or_not_available found ≡ ok specification
      → found ≡ some specification
  or_not_available-ok none specification h = cc
  or_not_available-ok (some a) specification h = cc

  validate_predicate-IsServed :
      (p : FilterPredicate F) → validate_predicate attributes p ≡ ok tt → IsServed p
  unfolding validate_predicate
  validate_predicate-IsServed p h =
      let (specification, found, h1) =
        >>=-eq-ok (or_not_available (attribute_of p.field attributes)) _ h in
      let (_, filtered, h2) =
        >>=-eq-ok (raise_if (not (is_filterable specification)) field_not_filterable) _ h1 in
      let (_, finite, h3) =
        >>=-eq-ok (raise_if (not (is_finite_json p.value)) value_not_finite) _ h2 in
      let refused =
        raise_if-ok (not (operator_accepts_value p.op p.value specification)) invalid_value h3 in
      record {
        specification = specification;
        found = or_not_available-ok (attribute_of p.field attributes) specification found;
        filterable =
            yes_of (raise_if-ok (not (is_filterable specification)) field_not_filterable filtered);
        finite = yes_of (raise_if-ok (not (is_finite_json p.value)) value_not_finite finite);
        accepted = yes_of refused;
      }
    where
      yes_of : {b : Bool} → not b ≡ false → b ≡ true
      yes_of {b} h = ground arith

  IsServed-is_valid_predicate :
      (p : FilterPredicate F)
      → attribute_of "" attributes ≡ none
      → IsServed p
      → is_valid_predicate p ≡ true
  unfolding operator_accepts_value
  IsServed-is_valid_predicate p none_unnamed served =
      rw
        (
          named_field p.field attributes served.specification none_unnamed served.found,
          accepts_value-has_valid_shape p.field p.op p.value _ _ served.accepted,
        )
        refl

  All-split :
      {A : Type 0} (P : A → Type 0) (xs ys : List A) → All P (xs ++ ys) → All P xs × All P ys
  All-split P [] ys h = (tt, h)
  All-split P (x ∷ xs) ys h = let rest = All-split P xs ys h.1 in ((h.0, rest.0), rest.1)

  IsServed-validate_predicate :
      (p : FilterPredicate F) → IsServed p → validate_predicate attributes p ≡ ok tt
  unfolding validate_predicate
  IsServed-validate_predicate p served =
      rw (served.found, served.filterable, served.finite, served.accepted) refl

  -- An expression is served: its models are valid, and so is each of its predicates for the namespace.
  unfoldable pub IsAccepted : FilterNode F → Type 0
  IsAccepted expression = (is_valid_node expression ≡ true) × All IsServed (predicates expression)

  arity_of :
      (op : LogicalOp) (children : ℕ)
      → (children == 0) ≡ false
      → (is_negation op && not (children == 1)) ≡ false
      → has_valid_arity op children ≡ true
  arity_of op children present single = ground arith

  mutual
    unfolding validate is_valid_node predicates

    accepted_node :
        (expression : FilterNode F)
        → attribute_of "" attributes ≡ none
        → validate attributes expression ≡ ok tt
        → (is_valid_node expression ≡ true) × All IsServed (predicates expression)
    accepted_node (predicate p) unnamed h =
        let served = validate_predicate-IsServed p h in
        (IsServed-is_valid_predicate p unnamed served, (served, tt))
    accepted_node (logical op children) unnamed h =
        let (_, some_child, h1) =
          >>=-eq-ok (raise_if (child_count children == 0) invalid_expression) _ h in
        let (_, arity, h2) =
          >>=-eq-ok
            (raise_if (is_negation op && not (child_count children == 1)) invalid_expression) _
            h1 in
        let rest = accepted_nodes children unnamed h2 in
        let present = raise_if-ok (child_count children == 0) invalid_expression some_child in
        let single =
          raise_if-ok (is_negation op && not (child_count children == 1)) invalid_expression
            arity in
        (rw (arity_of op (child_count children) present single, rest.0) refl, rest.1)

    accepted_nodes :
        (children : FilterNodes F)
        → attribute_of "" attributes ≡ none
        → validate_all attributes children ≡ ok tt
        → (are_valid_nodes children ≡ true) × All IsServed (all_predicates children)
    accepted_nodes no_nodes unnamed h = (refl, tt)
    accepted_nodes (node child children) unnamed h =
        let (_, one, h1) = >>=-eq-ok (validate attributes child) _ h in
        let first = accepted_node child unnamed one in
        let rest = accepted_nodes children unnamed h1 in
        (
          rw (first.0, rest.0) refl,
          All-append IsServed (predicates child) (all_predicates children) first.1 rest.1,
        )

  no_children : (n : ℕ) (op : LogicalOp) → has_valid_arity op n ≡ true → (n == 0) ≡ false
  no_children n op h = ground arith

  allowed :
      (n : ℕ) (op : LogicalOp)
      → has_valid_arity op n ≡ true
      → (is_negation op && not (n == 1)) ≡ false
  allowed n op h = ground arith

  mutual
    unfolding validate is_valid_node predicates

    validated_node :
        (expression : FilterNode F)
        → is_valid_node expression ≡ true
        → All IsServed (predicates expression)
        → validate attributes expression ≡ ok tt
    validated_node (predicate p) valid served = IsServed-validate_predicate p served.0
    validated_node (logical op children) valid served =
        let arity : has_valid_arity op (child_count children) ≡ true = ground arith in
        rw (no_children (child_count children) op arity, allowed (child_count children) op arity)
          (validated_nodes children (ground arith) served)

    validated_nodes :
        (children : FilterNodes F)
        → are_valid_nodes children ≡ true
        → All IsServed (all_predicates children)
        → validate_all attributes children ≡ ok tt
    validated_nodes no_nodes valid served = refl
    validated_nodes (node child children) valid served =
        let parts = All-split IsServed (predicates child) (all_predicates children) served in
        rw
          (
            validated_node child (ground arith) parts.0,
            validated_nodes children (ground arith) parts.1,
          )
          refl

  -- The validator accepts a filter expression exactly when the validators of the filter models
  -- accept it, and the namespace filters the field of each of its predicates, finds its numbers
  -- finite and takes its value for its operator. The namespace has no attribute with an empty name.
  pub validate-IsAccepted :
      (expression : FilterNode F)
      → attribute_of "" attributes ≡ none
      → (validate attributes expression ≡ ok tt) ↔ IsAccepted expression
  unfolding IsAccepted
  validate-IsAccepted expression unnamed =
      (accepted_node expression unnamed, λ h. validated_node expression h.0 h.1)

-- ===== src/Syntax/Values.antt =====
-- src/ast: the lowering of every expression keeps a valid graph valid, and does not fail on one that is
-- lowerable.
use mathlib.Core.Option
use caramel.Prelude.{
  Bool, true, false, ◌&&◌, ◌||◌, not, ◌≡◌, refl, Option, none, some, All, is_some,
}
use caramel.Code.{Value}
use caramel.Code.Assignments.{symbol_name}
use caramel.Lowering.{IsValue, is_cons}
use caramel.Lowering.Operators.{value-IsValue, operate-IsIr, pre_neg_operator-IsIr}
use caramel.Lowering.Assignments.{
  assignment_operator-IsIr, operate_on-IsIr, step_before-IsIr, step_after-IsIr,
}
use caramel.Lowering.Atoms.{
  constant-IsValue, logical_not_operator-IsIr, identifier_value-IsValue, array_access_value-IsValue,
  comma_ir-IsIr, function_call_ir-IsIr,
}
use caramel.Lowering.Current.{conjunction_operator-IsValue, disjunction_operator-IsValue}
use caramel.Syntax.{
  BinaryOperator, plus, minus, mult, div, modulo, left_shift, right_shift, lower_than,
  lower_eq_than, greater_than, greater_eq_than, equality, not_eq, bitwise_and, bitwise_xor,
  bitwise_or, plus_assignment, minus_assignment, times_assignment, div_assignment, mod_assignment,
  bitwise_and_assignment, bitwise_or_assignment, bitwise_xor_assignment, left_shift_assignment,
  right_shift_assignment, conjunction, disjunction, assignment, UnaryOperator, pre_incr, pre_decr,
  logical_not, pre_neg, post_inc, post_decr, Expression, constant, identifier, array_access, binary,
  unary, call, comma, Expressions, no_expression, expressions, binary_value, unary_value, value_of,
  values_of,
}
use caramel.Syntax.Lowerable.{assigns, updates, is_lvalue, is_empty, is_lowerable, are_lowerable}

pub both : (a b : Bool) → a && b ≡ true → (a ≡ true) × (b ≡ true)
both true b h = (refl, h)
both false b h = absurd (cc (h))

not_empty : (es : Expressions) → not (is_empty es) ≡ true → is_cons (values_of es) ≡ true
unfolding is_empty value_of
not_empty no_expression h = absurd (cc (h))
not_empty (expressions e es) h = refl

pub symbol_name-found : (e : Value) → is_some e.lvalue ≡ true → is_some (symbol_name e) ≡ true
unfolding symbol_name
symbol_name-found e h = mapped _ e.lvalue h
  where
    mapped :
        {A B : Type 0} (f : A → B) (x : Option A)
        → is_some x ≡ true
        → is_some (Option.map f x) ≡ true
    mapped f (some a) h = refl
    mapped f none h = absurd (cc (h))

pub is_lvalue-found : (e : Expression) → is_lvalue e ≡ true → is_some (value_of e).lvalue ≡ true
unfolding is_lvalue value_of
is_lvalue-found (identifier name type content) h = refl
is_lvalue-found (array_access name type index) h = refl
is_lvalue-found (constant number) h = absurd (cc (h))
is_lvalue-found (binary operator left right) h = absurd (cc (h))
is_lvalue-found (unary operator operand) h = absurd (cc (h))
is_lvalue-found (call name type variadic arguments) h = absurd (cc (h))
is_lvalue-found (comma es) h = absurd (cc (h))

-- What assigns to its operand has one that can be assigned to.
guarded :
    (c : Bool) (e : Expression)
    → not c || is_lvalue e ≡ true
    → not c || is_some (value_of e).lvalue ≡ true
guarded true e h = is_lvalue-found e h
guarded false e h = refl

module _ {total : Bool} where
  module _ {l r : Value} (left : IsValue total l) (right : IsValue total r) where
    binary_value-IsValue :
        (operator : BinaryOperator)
        → (total ≡ true → not (assigns operator) || is_some l.lvalue ≡ true)
        → IsValue total (binary_value operator l r)
    unfolding binary_value assigns
    binary_value-IsValue plus s = value-IsValue _ _ (operate-IsIr left right _)
    binary_value-IsValue minus s = value-IsValue _ _ (operate-IsIr left right _)
    binary_value-IsValue mult s = value-IsValue _ _ (operate-IsIr left right _)
    binary_value-IsValue div s = value-IsValue _ _ (operate-IsIr left right _)
    binary_value-IsValue modulo s = value-IsValue _ _ (operate-IsIr left right _)
    binary_value-IsValue left_shift s = value-IsValue _ _ (operate-IsIr left right _)
    binary_value-IsValue right_shift s = value-IsValue _ _ (operate-IsIr left right _)
    binary_value-IsValue lower_than s = value-IsValue _ _ (operate-IsIr left right _)
    binary_value-IsValue lower_eq_than s = value-IsValue _ _ (operate-IsIr left right _)
    binary_value-IsValue greater_than s = value-IsValue _ _ (operate-IsIr left right _)
    binary_value-IsValue greater_eq_than s = value-IsValue _ _ (operate-IsIr left right _)
    binary_value-IsValue equality s = value-IsValue _ _ (operate-IsIr left right _)
    binary_value-IsValue not_eq s = value-IsValue _ _ (operate-IsIr left right _)
    binary_value-IsValue bitwise_and s = value-IsValue _ _ (operate-IsIr left right _)
    binary_value-IsValue bitwise_xor s = value-IsValue _ _ (operate-IsIr left right _)
    binary_value-IsValue bitwise_or s = value-IsValue _ _ (operate-IsIr left right _)
    binary_value-IsValue conjunction s = conjunction_operator-IsValue left right
    binary_value-IsValue disjunction s = disjunction_operator-IsValue left right
    binary_value-IsValue assignment s = value-IsValue _ _ (assignment_operator-IsIr left right s)
    binary_value-IsValue plus_assignment s =
        value-IsValue _ _ (operate_on-IsIr left right _ (λ t. symbol_name-found l (s t)))
    binary_value-IsValue minus_assignment s =
        value-IsValue _ _ (operate_on-IsIr left right _ (λ t. symbol_name-found l (s t)))
    binary_value-IsValue times_assignment s =
        value-IsValue _ _ (operate_on-IsIr left right _ (λ t. symbol_name-found l (s t)))
    binary_value-IsValue div_assignment s =
        value-IsValue _ _ (operate_on-IsIr left right _ (λ t. symbol_name-found l (s t)))
    binary_value-IsValue mod_assignment s =
        value-IsValue _ _ (operate_on-IsIr left right _ (λ t. symbol_name-found l (s t)))
    binary_value-IsValue bitwise_and_assignment s =
        value-IsValue _ _ (operate_on-IsIr left right _ (λ t. symbol_name-found l (s t)))
    binary_value-IsValue bitwise_or_assignment s =
        value-IsValue _ _ (operate_on-IsIr left right _ (λ t. symbol_name-found l (s t)))
    binary_value-IsValue bitwise_xor_assignment s =
        value-IsValue _ _ (operate_on-IsIr left right _ (λ t. symbol_name-found l (s t)))
    binary_value-IsValue left_shift_assignment s =
        value-IsValue _ _ (operate_on-IsIr left right _ (λ t. symbol_name-found l (s t)))
    binary_value-IsValue right_shift_assignment s =
        value-IsValue _ _ (operate_on-IsIr left right _ (λ t. symbol_name-found l (s t)))

  unary_value-IsValue :
      {e : Value}
      → IsValue total e
      → (operator : UnaryOperator)
      → (total ≡ true → not (updates operator) || is_some e.lvalue ≡ true)
      → IsValue total (unary_value operator e)
  unfolding unary_value updates
  unary_value-IsValue {e = e} k pre_incr s =
      value-IsValue _ _ (step_before-IsIr k _ (λ t. symbol_name-found e (s t)))
  unary_value-IsValue {e = e} k pre_decr s =
      value-IsValue _ _ (step_before-IsIr k _ (λ t. symbol_name-found e (s t)))
  unary_value-IsValue k logical_not s = value-IsValue _ _ (logical_not_operator-IsIr k)
  unary_value-IsValue k pre_neg s = value-IsValue _ _ (pre_neg_operator-IsIr k)
  unary_value-IsValue {e = e} k post_inc s =
      value-IsValue _ _ (step_after-IsIr k _ (λ t. symbol_name-found e (s t)))
  unary_value-IsValue {e = e} k post_decr s =
      value-IsValue _ _ (step_after-IsIr k _ (λ t. symbol_name-found e (s t)))

  mutual
    unfolding value_of is_lowerable is_empty

    pub value_of-IsValue :
        (e : Expression) → (total ≡ true → is_lowerable e ≡ true) → IsValue total (value_of e)
    value_of-IsValue (constant number) h = constant-IsValue number
    value_of-IsValue (identifier name type content) h = identifier_value-IsValue name type content
    value_of-IsValue (array_access name type index) h =
        array_access_value-IsValue name type (value_of-IsValue index h)
    value_of-IsValue (binary operator left right) h =
        binary_value-IsValue (value_of-IsValue left (λ t. (both _ _ (both _ _ (h t)).1).0))
          (value_of-IsValue right (λ t. (both _ _ (both _ _ (h t)).1).1)) operator
          (λ t. guarded (assigns operator) left ((both _ _ (h t)).0))
    value_of-IsValue (unary operator operand) h =
        unary_value-IsValue (value_of-IsValue operand (λ t. (both _ _ (h t)).1)) operator
          (λ t. guarded (updates operator) operand ((both _ _ (h t)).0))
    value_of-IsValue (call name type variadic arguments) h =
        value-IsValue _ _
          (function_call_ir-IsIr name type variadic _ (values_of-AreValues arguments h))
    value_of-IsValue (comma es) h = value-IsValue _ _ (
        comma_ir-IsIr _ (values_of-AreValues es (λ t. (both _ _ (h t)).1))
          (λ t. not_empty es ((both _ _ (h t)).0)))

    pub values_of-AreValues :
        (es : Expressions)
        → (total ≡ true → are_lowerable es ≡ true)
        → All (IsValue total) (values_of es)
    values_of-AreValues no_expression h = tt
    values_of-AreValues (expressions e es) h = (
      value_of-IsValue e (λ t. (both _ _ (h t)).0),
      values_of-AreValues es (λ t. (both _ _ (h t)).1),
    )

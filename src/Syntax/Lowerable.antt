-- ===== src/Syntax/Lowerable.antt =====
-- src/ast: the programs whose lowering does not fail.
use caramel.Prelude.{ltb, Bool, true, false, ◌&&◌, ◌||◌, not, Option, none, some, List, [], ◌∷◌}
use caramel.Types.{memory_length}
use caramel.Syntax.{
  BinaryOperator, assignment, plus_assignment, minus_assignment, times_assignment, div_assignment,
  mod_assignment, bitwise_and_assignment, bitwise_or_assignment, bitwise_xor_assignment,
  left_shift_assignment, right_shift_assignment, conjunction, disjunction, UnaryOperator,
  logical_not, pre_neg, Expression, constant, identifier, array_access, binary, unary, call, comma,
  Expressions, no_expression, expressions, Statement, expression, variable_definition,
  array_definition, return_statement, break_statement, declaration, if_statement, while_statement,
  do_while_statement, for_statement, Statements, no_statement, statements, Function,
}

-- The operators that assign to their operand, or to their left operand.
unfoldable pub assigns : BinaryOperator → Bool
assigns assignment = true
assigns plus_assignment = true
assigns minus_assignment = true
assigns times_assignment = true
assigns div_assignment = true
assigns mod_assignment = true
assigns bitwise_and_assignment = true
assigns bitwise_or_assignment = true
assigns bitwise_xor_assignment = true
assigns left_shift_assignment = true
assigns right_shift_assignment = true
assigns _ = false

unfoldable pub updates : UnaryOperator → Bool
updates logical_not = false
updates pre_neg = false
updates _ = true

unfoldable pub is_lvalue : Expression → Bool
is_lvalue (identifier name type content) = true
is_lvalue (array_access name type index) = true
is_lvalue _ = false

-- An expression that is one of blocks.
unfoldable pub is_logic : Expression → Bool
is_logic (binary conjunction left right) = true
is_logic (binary disjunction left right) = true
is_logic _ = false

unfoldable pub is_empty : Expressions → Bool
is_empty no_expression = true
is_empty (expressions e es) = false

-- What is assigned to is an identifier or an element of an array, and no sequence is empty.
unfoldable mutual
  unfolding assigns updates is_lvalue is_empty

  pub is_lowerable : Expression → Bool
  is_lowerable (constant number) = true
  is_lowerable (identifier name type content) = true
  is_lowerable (array_access name type index) = is_lowerable index
  is_lowerable (binary operator left right) =
      (not (assigns operator) || is_lvalue left) && (is_lowerable left && is_lowerable right)
  is_lowerable (unary operator operand) =
      (not (updates operator) || is_lvalue operand) && is_lowerable operand
  is_lowerable (call name type is_variadic arguments) = are_lowerable arguments
  is_lowerable (comma es) = not (is_empty es) && are_lowerable es

  pub are_lowerable : Expressions → Bool
  are_lowerable no_expression = true
  are_lowerable (expressions e es) = is_lowerable e && are_lowerable es

unfoldable pub is_lowerable_optional : Option Expression → Bool
unfolding is_lowerable
is_lowerable_optional none = true
is_lowerable_optional (some e) = is_lowerable e

-- The content of an array is defined, and each element is lowerable.
unfoldable pub is_lowerable_content : Option Expressions → Bool
unfolding is_lowerable
is_lowerable_content none = false
is_lowerable_content (some es) = are_lowerable es

-- In a loop or not: `break` stands in a loop, an array has elements of some size, and where the
-- condition of a `for` has blocks, so has its initialisation.
unfoldable mutual
  unfolding is_lowerable is_lowerable_optional is_lowerable_content is_logic

  pub can_lower : Bool → Statement → Bool
  can_lower inside (expression e) = is_lowerable e
  can_lower inside (variable_definition name type init) = is_lowerable_optional init
  can_lower inside (array_definition name type size content) =
      is_lowerable_content content && (ltb 0 (memory_length type) && ltb 0 size)
  can_lower inside (return_statement e) = is_lowerable_optional e
  can_lower inside break_statement = inside
  can_lower inside declaration = true
  can_lower inside (if_statement condition then_block else_block) =
      is_lowerable condition && (can_lower_all inside then_block && can_lower_all inside else_block)
  can_lower inside (while_statement condition body) =
      is_lowerable condition && can_lower_all true body
  can_lower inside (do_while_statement condition body) =
      is_lowerable condition && can_lower_all true body
  can_lower inside (for_statement first condition step body) =
      (not (is_logic condition) || is_logic first)
      && (is_lowerable first
          && (is_lowerable condition && (is_lowerable step && can_lower_all true body)))

  pub can_lower_all : Bool → Statements → Bool
  can_lower_all inside no_statement = true
  can_lower_all inside (statements s ss) = can_lower inside s && can_lower_all inside ss

unfoldable pub can_lower_program : List Function → Bool
unfolding can_lower
can_lower_program [] = true
can_lower_program (f ∷ fs) = can_lower_all false f.body && can_lower_program fs

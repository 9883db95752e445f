-- ===== src/Syntax.antt =====
-- src/ast: the syntax tree, with a constructor for each class of an operator, an expression or a
-- statement, and the lowering of a whole program by the virtual functions of its nodes. A symbol is the
-- fields of it that the lowering reads.
pub mod Lowerable
pub mod Values
pub mod Codes
pub mod Programs
pub mod Nodes
pub mod Elements
pub mod Tokens
mod Tests
use caramel.Prelude.{ℕ, String, Bool, Option, none, some, List, [], ◌∷◌, ◌++◌}
use caramel.Prelude.Int.{ℤ}
use caramel.Types.{PrimaryType}
use caramel.Symbols.{FunctionParameterSignature}
use caramel.Graph.{Graph, no_graph}
use caramel.Code.{Code, Value, ir_code, block_code, no_code, GetBasicBlock}
use caramel.Code.Operators.{
  binary_expression, unary_expression, pre_neg_operator, plus_operator, minus_operator,
  mult_operator, div_operator, mod_operator, left_shift_operator, right_shift_operator,
  lower_than_operator, lower_eq_than_operator, greater_than_operator, greater_eq_than_operator,
  equality_operator, not_eq_operator, bitwise_and_operator, bitwise_xor_operator,
  bitwise_or_operator,
}
use caramel.Code.Atoms.{
  constant as constant_value, identifier_value, array_access_value, comma_expression, function_call,
  logical_not_operator,
}
use caramel.Code.Assignments.{
  pre_incr_operator, pre_decr_operator, post_inc_operator, post_decr_operator, assignment_operator,
  plus_assignment_operator, minus_assignment_operator, times_assignment_operator,
  div_assignment_operator, mod_assignment_operator, bitwise_and_assignment_operator,
  bitwise_or_assignment_operator, bitwise_xor_assignment_operator, left_shift_assignment_operator,
  right_shift_assignment_operator,
}
use caramel.Code.Logic.{conjunction_operator, disjunction_operator}
use caramel.Code.Statements.{variable_definition_ir, array_definition_ir, return_ir, break_ir}
use caramel.Code.Control.{if_block, while_block, do_while_block, for_block}
use caramel.Code.Functions.{function_definition, add_functions}

pub data BinaryOperator : Type 0 where
  plus minus mult div modulo left_shift right_shift : BinaryOperator
  lower_than lower_eq_than greater_than greater_eq_than equality not_eq : BinaryOperator
  bitwise_and bitwise_xor bitwise_or conjunction disjunction assignment : BinaryOperator
  plus_assignment minus_assignment times_assignment div_assignment mod_assignment : BinaryOperator
  bitwise_and_assignment bitwise_or_assignment bitwise_xor_assignment : BinaryOperator
  left_shift_assignment right_shift_assignment : BinaryOperator

pub data UnaryOperator : Type 0 where
  pre_incr pre_decr logical_not pre_neg post_inc post_decr : UnaryOperator

-- An identifier has the name and the type of its symbol, and for an array the flag
-- `isContentDefined`; a call the name of the function, its type, and whether it is variadic.
mutual
  pub data Expression : Type 0 where
    constant : ℤ → Expression
    identifier : String → PrimaryType → Option Bool → Expression
    array_access : String → PrimaryType → Expression → Expression
    binary : BinaryOperator → Expression → Expression → Expression
    unary : UnaryOperator → Expression → Expression
    call : String → PrimaryType → Bool → Expressions → Expression
    comma : Expressions → Expression

  pub data Expressions : Type 0 where
    no_expression : Expressions
    expressions : Expression → Expressions → Expressions

-- `declaration` is a statement that returns neither an instruction nor blocks: a declaration, or the
-- definition of a type.
mutual
  pub data Statement : Type 0 where
    expression : Expression → Statement
    variable_definition : String → PrimaryType → Option Expression → Statement
    array_definition : String → PrimaryType → ℕ → Option Expressions → Statement
    return_statement : Option Expression → Statement
    break_statement declaration : Statement
    if_statement : Expression → Statements → Statements → Statement
    while_statement do_while_statement : Expression → Statements → Statement
    for_statement : Expression → Expression → Expression → Statements → Statement

  pub data Statements : Type 0 where
    no_statement : Statements
    statements : Statement → Statements → Statements

pub record Function : Type 0 where
  pub name : String
  pub parameters : List FunctionParameterSignature
  pub body : Statements

-- The class of an operator, and `BinaryExpression` over it.
unfoldable pub binary_value : BinaryOperator → Value → Value → Value
binary_value plus = binary_expression plus_operator
binary_value minus = binary_expression minus_operator
binary_value mult = binary_expression mult_operator
binary_value div = binary_expression div_operator
binary_value modulo = binary_expression mod_operator
binary_value left_shift = binary_expression left_shift_operator
binary_value right_shift = binary_expression right_shift_operator
binary_value lower_than = binary_expression lower_than_operator
binary_value lower_eq_than = binary_expression lower_eq_than_operator
binary_value greater_than = binary_expression greater_than_operator
binary_value greater_eq_than = binary_expression greater_eq_than_operator
binary_value equality = binary_expression equality_operator
binary_value not_eq = binary_expression not_eq_operator
binary_value bitwise_and = binary_expression bitwise_and_operator
binary_value bitwise_xor = binary_expression bitwise_xor_operator
binary_value bitwise_or = binary_expression bitwise_or_operator
binary_value conjunction = conjunction_operator
binary_value disjunction = disjunction_operator
binary_value assignment = binary_expression assignment_operator
binary_value plus_assignment = binary_expression plus_assignment_operator
binary_value minus_assignment = binary_expression minus_assignment_operator
binary_value times_assignment = binary_expression times_assignment_operator
binary_value div_assignment = binary_expression div_assignment_operator
binary_value mod_assignment = binary_expression mod_assignment_operator
binary_value bitwise_and_assignment = binary_expression bitwise_and_assignment_operator
binary_value bitwise_or_assignment = binary_expression bitwise_or_assignment_operator
binary_value bitwise_xor_assignment = binary_expression bitwise_xor_assignment_operator
binary_value left_shift_assignment = binary_expression left_shift_assignment_operator
binary_value right_shift_assignment = binary_expression right_shift_assignment_operator

unfoldable pub unary_value : UnaryOperator → Value → Value
unfolding logical_not_operator
unary_value pre_incr = unary_expression pre_incr_operator
unary_value pre_decr = unary_expression pre_decr_operator
unary_value logical_not = unary_expression logical_not_operator
unary_value pre_neg = unary_expression pre_neg_operator
unary_value post_inc = unary_expression post_inc_operator
unary_value post_decr = unary_expression post_decr_operator

unfoldable mutual
  pub value_of : Expression → Value
  value_of (constant number) = constant_value number
  value_of (identifier name type is_content_defined) = identifier_value name type is_content_defined
  value_of (array_access name type index) = array_access_value name type (value_of index)
  value_of (binary operator left right) = binary_value operator (value_of left) (value_of right)
  value_of (unary operator operand) = unary_value operator (value_of operand)
  value_of (call name type is_variadic arguments) =
      function_call name type is_variadic (values_of arguments)
  value_of (comma es) = comma_expression (values_of es)

  pub values_of : Expressions → List Value
  values_of no_expression = []
  values_of (expressions e es) = value_of e ∷ values_of es

unfoldable pub optional_value : Option Expression → Option Value
optional_value none = none
optional_value (some e) = some (value_of e)

-- The elements of a definition from the last to the first.
unfoldable pub elements_of : Expressions → List Value
elements_of no_expression = []
elements_of (expressions e es) = elements_of es ++ value_of e ∷ []

unfoldable pub optional_elements : Option Expressions → Option (List Value)
unfolding elements_of
optional_elements none = none
optional_elements (some es) = some (elements_of es)

unfoldable mutual
  unfolding optional_value optional_elements

  pub code_of : Statement → Code
  code_of (expression e) = (value_of e).code
  code_of (variable_definition name type init) =
      ir_code (variable_definition_ir name type (optional_value init))
  code_of (array_definition name type size content) =
      ir_code (array_definition_ir name type size (optional_elements content))
  code_of (return_statement e) = ir_code (return_ir (optional_value e))
  code_of break_statement = ir_code break_ir
  code_of declaration = no_code
  code_of (if_statement condition then_block else_block) =
      block_code (if_block (value_of condition) (codes_of then_block) (codes_of else_block))
  code_of (while_statement condition body) =
      block_code (while_block (value_of condition) (codes_of body))
  code_of (do_while_statement condition body) =
      block_code (do_while_block (value_of condition) (codes_of body))
  code_of (for_statement first condition step body) =
      block_code (for_block (value_of first) (value_of condition) (value_of step) (codes_of body))

  pub codes_of : Statements → List Code
  codes_of no_statement = []
  codes_of (statements s ss) = code_of s ∷ codes_of ss

unfoldable pub function_blocks : List Function → List GetBasicBlock
function_blocks [] = []
function_blocks (f ∷ fs) =
    function_definition f.name f.parameters (codes_of f.body) ∷ function_blocks fs

-- The graph of a program, by its function definitions.
unfoldable pub control_flow_graph : List Function → Option Graph
unfolding function_blocks
control_flow_graph functions = elim (add_functions (function_blocks functions) no_graph) [
  | some (done, g) ↦ some g
  | none ↦ none
]

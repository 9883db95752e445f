-- ===== src/Code/Operators.antt =====
-- src/ast/operators: the binary operators that compute a value from the values of both operands, and
-- the prefix operators `-` and `!`.
use caramel.Prelude.{String}
use caramel.Types.{max_type}
use caramel.Ir.{
  Kind, instruction, addition, subtraction, multiplication, division, modulo, left_shift,
  right_shift, bitwise_and, bitwise_or, bitwise_xor, flag_to_reg, less, less_or_eq, equal, greater,
  greater_or_eq, not_eq,
}
use caramel.Graph.{◌>>=◌, pure, create_var_name}
use caramel.Code.{GetIr, Value, value, safe_add_instruction}

-- `BinaryOperator::getIR`
abbrev pub BinaryIr : Type 0
BinaryIr = Value → Value → GetIr

-- The common body: both operands in order, and an instruction with their names.
unfoldable pub operate : (String → String → Kind) → BinaryIr
unfolding safe_add_instruction create_var_name
operate kind left right current = do
  (l, current') ← safe_add_instruction left.code.get_ir current
  (r, current'') ← safe_add_instruction right.code.get_ir current'
  name ← create_var_name
  pure (instruction name (max_type left.type right.type) (kind l r), current'')

abbrev pub plus_operator : BinaryIr
plus_operator = operate addition

abbrev pub minus_operator : BinaryIr
minus_operator = operate subtraction

abbrev pub mult_operator : BinaryIr
mult_operator = operate multiplication

abbrev pub div_operator : BinaryIr
div_operator = operate division

abbrev pub mod_operator : BinaryIr
mod_operator = operate modulo

abbrev pub left_shift_operator : BinaryIr
left_shift_operator = operate left_shift

abbrev pub right_shift_operator : BinaryIr
right_shift_operator = operate right_shift

abbrev pub bitwise_and_operator : BinaryIr
bitwise_and_operator = operate bitwise_and

abbrev pub bitwise_or_operator : BinaryIr
bitwise_or_operator = operate bitwise_or

abbrev pub bitwise_xor_operator : BinaryIr
bitwise_xor_operator = operate bitwise_xor

abbrev pub equality_operator : BinaryIr
equality_operator = operate (flag_to_reg equal)

abbrev pub not_eq_operator : BinaryIr
not_eq_operator = operate (flag_to_reg not_eq)

abbrev pub greater_than_operator : BinaryIr
greater_than_operator = operate (flag_to_reg greater)

abbrev pub greater_eq_than_operator : BinaryIr
greater_eq_than_operator = operate (flag_to_reg greater_or_eq)

abbrev pub lower_than_operator : BinaryIr
lower_than_operator = operate (flag_to_reg less)

abbrev pub lower_eq_than_operator : BinaryIr
lower_eq_than_operator = operate (flag_to_reg less_or_eq)

-- `BinaryExpression` with an operator that returns an instruction.
abbrev pub binary_expression : BinaryIr → Value → Value → Value
binary_expression operator left right = value (max_type left.type right.type) (operator left right)

-- `UnaryExpression`
abbrev pub unary_expression : (Value → GetIr) → Value → Value
unary_expression operator operand = value operand.type (operator operand)

unfoldable pub pre_neg_operator : Value → GetIr
unfolding safe_add_instruction create_var_name
pre_neg_operator operand current = do
  (before, current') ← safe_add_instruction operand.code.get_ir current
  name ← create_var_name
  pure (instruction name operand.type (subtraction "0" before), current')

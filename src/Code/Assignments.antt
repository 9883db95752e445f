-- ===== src/Code/Assignments.antt =====
-- src/ast/operators: the assignments, and the increments and decrements.
use caramel.Prelude.{ℕ, String, Option, none, some}
use mathlib.Core.Option
use caramel.Types.{PrimaryType, max_type}
use caramel.Ir.{
  Kind, instruction, copy_instruction, addition, subtraction, multiplication, division, modulo,
  left_shift, right_shift, bitwise_and, bitwise_or, bitwise_xor, empty, array_access as access_to,
}
use caramel.Graph.{Lower, ◌>>◌, ◌>>=◌, pure, fail, create_var_name, add_to, not_null}
use caramel.Code.{GetIr, Value, Place, identifier, array_access, safe_add_instruction}
use caramel.Code.Operators.{BinaryIr}

-- The name of the symbol of an `LValue`; the cast of another expression is a null pointer.
unfoldable pub symbol_name : Value → Option String
symbol_name e = Option.map (λ (name, place). name) e.lvalue

-- What `AssignmentOperator` copies from the right operand: from an `LValue`, the slot of its symbol.
unfoldable pub assigned : Option (String × Place) → Value → PrimaryType → ℕ → Lower (String × ℕ)
unfolding safe_add_instruction create_var_name
assigned (some (name, place)) right type current = do
  destination ← create_var_name
  location ← add_to current (instruction destination type (addition name "0"))
  pure (location, current)
assigned none right type current = safe_add_instruction right.code.get_ir current

-- The assignment to an element, to another `LValue`, and to what is not one.
unfoldable pub assign_to : Option (String × Place) → BinaryIr
unfolding safe_add_instruction create_var_name assigned
assign_to (some (name, array_access index_type index)) left right current = do
  (rvalue, current') ← safe_add_instruction right.code.get_ir current
  (source, current'') ← safe_add_instruction index current'
  destination ← create_var_name
  pure (
    instruction destination (max_type left.type right.type)
        (access_to source index_type name (some rvalue)),
    current'',
  )
assign_to (some (name, identifier is_array)) left right current = do
  (lvalue, current') ← safe_add_instruction left.code.get_ir current
  (rvalue, current'') ← assigned right.lvalue right (max_type left.type right.type) current'
  pure (copy_instruction (max_type left.type right.type) lvalue rvalue, current'')
assign_to none left right current = fail

unfoldable pub assignment_operator : BinaryIr
unfolding assign_to
assignment_operator left right = assign_to left.lvalue left right

-- The common body of the operators that assign: the right operand, then the left, an instruction with
-- both, and a copy to the symbol of the left.
unfoldable pub operate_on : (String → String → Kind) → BinaryIr
unfolding safe_add_instruction create_var_name symbol_name
operate_on kind left right current = do
  (r, current') ← safe_add_instruction right.code.get_ir current
  temporary ← create_var_name
  (l, current'') ← safe_add_instruction left.code.get_ir current'
  add_to current'' (instruction temporary left.type (kind l r))
  name ← not_null (symbol_name left)
  pure (copy_instruction left.type name temporary, current'')

abbrev pub plus_assignment_operator : BinaryIr
plus_assignment_operator = operate_on addition

abbrev pub minus_assignment_operator : BinaryIr
minus_assignment_operator = operate_on subtraction

abbrev pub times_assignment_operator : BinaryIr
times_assignment_operator = operate_on multiplication

abbrev pub div_assignment_operator : BinaryIr
div_assignment_operator = operate_on division

abbrev pub mod_assignment_operator : BinaryIr
mod_assignment_operator = operate_on modulo

abbrev pub left_shift_assignment_operator : BinaryIr
left_shift_assignment_operator = operate_on left_shift

abbrev pub right_shift_assignment_operator : BinaryIr
right_shift_assignment_operator = operate_on right_shift

abbrev pub bitwise_and_assignment_operator : BinaryIr
bitwise_and_assignment_operator = operate_on bitwise_and

abbrev pub bitwise_or_assignment_operator : BinaryIr
bitwise_or_assignment_operator = operate_on bitwise_or

abbrev pub bitwise_xor_assignment_operator : BinaryIr
bitwise_xor_assignment_operator = operate_on bitwise_xor

-- `++e` and `--e`
unfoldable pub step_before : (String → String → Kind) → Value → GetIr
unfolding safe_add_instruction create_var_name symbol_name
step_before kind operand current = do
  temporary ← create_var_name
  (l, current') ← safe_add_instruction operand.code.get_ir current
  add_to current' (instruction temporary operand.type (kind l "1"))
  name ← not_null (symbol_name operand)
  pure (copy_instruction operand.type name temporary, current')

abbrev pub pre_incr_operator : Value → GetIr
pre_incr_operator = step_before addition

abbrev pub pre_decr_operator : Value → GetIr
pre_decr_operator = step_before subtraction

-- `e++` and `e--`: the old value is copied first, and returned.
unfoldable pub step_after : (String → String → Kind) → Value → GetIr
unfolding safe_add_instruction create_var_name symbol_name
step_after kind operand current = do
  old ← create_var_name
  name ← not_null (symbol_name operand)
  add_to current (copy_instruction operand.type old name)
  temporary ← create_var_name
  (l, current') ← safe_add_instruction operand.code.get_ir current
  add_to current' (instruction temporary operand.type (kind l "1"))
  add_to current' (copy_instruction operand.type name temporary)
  pure (instruction old operand.type empty, current')

abbrev pub post_inc_operator : Value → GetIr
post_inc_operator = step_after addition

abbrev pub post_decr_operator : Value → GetIr
post_decr_operator = step_after subtraction

-- ===== src/Code/Atoms.antt =====
-- src/ast/statements/expressions: constants, identifiers, accesses to arrays, calls and sequences.
use caramel.Prelude.{
  ℕ, suc, String, Bool, false, Option, none, some, List, [], ◌∷◌, length, is_some, if◌then◌else◌,
}
use caramel.Prelude.Int.{ℤ, pos}
use caramel.Types.{PrimaryType, fits, int32_t, int64_t}
use caramel.Ir.{
  instruction, copy_addr_instruction, ld_const, empty, array_access as access_to, call,
  call_parameter_instruction,
}
use caramel.X86.{offset_text as long_text}
use caramel.Graph.{Lower, ◌>>◌, ◌>>=◌, pure, fail, create_var_name, add_to}
use caramel.Code.{
  GetIr, Value, value, Place, identifier, array_access, ir_code, safe_add_instruction,
}
use caramel.Code.Operators.{equality_operator}

-- `Constant::getPrimaryType`
unfoldable pub constant_type : ℤ → PrimaryType
unfolding fits
constant_type number = if fits int32_t number then int32_t else int64_t

unfoldable pub constant_ir : ℤ → GetIr
unfolding create_var_name
constant_ir number current = do
  name ← create_var_name
  pure (instruction name int64_t (ld_const (long_text number)), current)

unfoldable pub constant : ℤ → Value
unfolding constant_type constant_ir
constant number = value (constant_type number) (constant_ir number)

-- `!e` is `e == 0`.
unfoldable pub logical_not_operator : Value → GetIr
unfolding constant
logical_not_operator operand = equality_operator operand (constant (pos 0))

-- An identifier of a symbol that is an array, with the flag `isContentDefined`, or is not.
unfoldable pub identifier_ir : String → PrimaryType → Option Bool → GetIr
unfolding create_var_name
identifier_ir name type (some is_content_defined) current = do
  destination ← create_var_name
  pure (copy_addr_instruction destination name is_content_defined, current)
identifier_ir name type none current = pure (instruction name type empty, current)

abbrev pub identifier_value : String → PrimaryType → Option Bool → Value
identifier_value name type is_content_defined = record {
  code = ir_code (identifier_ir name type is_content_defined);
  type = type;
  lvalue = some (name, identifier (is_some is_content_defined));
}

unfoldable pub array_access_ir : String → PrimaryType → Value → GetIr
unfolding safe_add_instruction create_var_name
array_access_ir name type index current = do
  (source, current') ← safe_add_instruction index.code.get_ir current
  destination ← create_var_name
  pure (instruction destination type (access_to source index.type name none), current')

abbrev pub array_access_value : String → PrimaryType → Value → Value
array_access_value name type index = record {
  code = ir_code (array_access_ir name type index);
  type = type;
  lvalue = some (name, array_access index.type index.code.get_ir);
}

-- The loop of `CommaExpression::getIR`, with the location and the type of the last expression so far.
unfoldable pub each_expression : List Value → String → PrimaryType → GetIr
unfolding safe_add_instruction
each_expression [] location type current = pure (instruction location type empty, current)
each_expression (e ∷ es) location type current = do
  (location', current') ← safe_add_instruction e.code.get_ir current
  each_expression es location' e.type current'

-- The constructor exits on an empty list.
unfoldable pub comma_ir : List Value → GetIr
unfolding each_expression
comma_ir [] current = fail
comma_ir (e ∷ es) current = each_expression (e ∷ es) "" e.type current

last_type : PrimaryType → List Value → PrimaryType
last_type type [] = type
last_type type (e ∷ es) = last_type e.type es

unfoldable pub comma_type : List Value → PrimaryType
unfolding last_type
comma_type = last_type int32_t

abbrev pub comma_expression : List Value → Value
comma_expression expressions = value (comma_type expressions) (comma_ir expressions)

is_array_identifier : Option (String × Place) → Bool
is_array_identifier (some (name, identifier is_array)) = is_array
is_array_identifier _ = false

-- The loop of `FunctionCall::getIR`, from the last argument to the first; the number of an argument
-- counts from the first.
unfoldable pub pass_arguments : ℕ → List Value → ℕ → Lower ℕ
unfolding safe_add_instruction is_array_identifier
pass_arguments i [] current = pure current
pass_arguments i (a ∷ rest) current = do
  current' ← pass_arguments (suc i) rest current
  (location, current'') ← safe_add_instruction a.code.get_ir current'
  add_to current'' (call_parameter_instruction i a.type location (is_array_identifier a.lvalue))
  pure current''

-- A call of a function with a name, the type that it returns, and whether it is variadic.
unfoldable pub function_call_ir : String → PrimaryType → Bool → List Value → GetIr
unfolding pass_arguments create_var_name
function_call_ir name type is_variadic arguments current = do
  current' ← pass_arguments 0 arguments current
  destination ← create_var_name
  pure (instruction destination type (call name (length arguments) is_variadic), current')

abbrev pub function_call : String → PrimaryType → Bool → List Value → Value
function_call name type is_variadic arguments =
    value type (function_call_ir name type is_variadic arguments)

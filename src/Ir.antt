-- ===== src/Ir.antt =====
-- src/ir/IR.cpp and src/ir/instructions: the instructions of the intermediate representation.
-- `return_name` and `type` are the fields of the base class; a constructor of `Kind` is a subclass
-- with its own fields. The parent block is passed to the visitors beside the instruction.
use caramel.Prelude.{ℕ, String, Bool, Option, none, some}
use caramel.Types.{PrimaryType, void_t, int64_t}

pub data FlagToRegType : Type 0 where
  less less_or_eq equal greater greater_or_eq not_eq : FlagToRegType

-- The operands of the arithmetic instructions are left and right. `copy` has the number of an
-- argument's register, or `none` for -1, and the source; `copy_addr` the source and whether it is a
-- local array; `array_access` the index, its type, the array's name, and the source where it is an
-- lvalue; `call` the function's name, the number of arguments and whether it is variadic;
-- `call_parameter` the index, and whether the value is an address.
pub data Kind : Type 0 where
  addition subtraction multiplication division modulo : String → String → Kind
  left_shift right_shift bitwise_and bitwise_or bitwise_xor : String → String → Kind
  flag_to_reg : FlagToRegType → String → String → Kind
  copy : Option ℕ → String → Kind
  copy_addr : String → Bool → Kind
  array_access : String → PrimaryType → String → Option String → Kind
  ld_const : String → Kind
  empty prolog epilog nop void return_from : Kind
  break_to : String → Kind
  call : String → ℕ → Bool → Kind
  call_parameter : ℕ → Bool → Kind
  push pop : String → Kind

pub record Instruction : Type 0 where
  pub return_name : String
  pub type : PrimaryType
  pub kind : Kind

-- The constructors of the subclasses that fix a part of the base class.
abbrev pub instruction : String → PrimaryType → Kind → Instruction
instruction name type kind = record { return_name = name; type = type; kind = kind }

-- `IR(operation, parentBlock, Void_t::Create())`, with the empty name.
abbrev pub unnamed : Kind → Instruction
unnamed kind = instruction "" void_t kind

abbrev pub copy_instruction : PrimaryType → String → String → Instruction
copy_instruction type destination source = instruction destination type (copy none source)

abbrev pub copy_from_register : PrimaryType → String → ℕ → Instruction
copy_from_register type destination register =
    instruction destination type (copy (some register) "")

abbrev pub copy_addr_instruction : String → String → Bool → Instruction
copy_addr_instruction destination source local =
    instruction destination int64_t (copy_addr source local)

abbrev pub call_parameter_instruction : ℕ → PrimaryType → String → Bool → Instruction
call_parameter_instruction index type value is_address =
    instruction value type (call_parameter index is_address)

abbrev pub return_instruction : PrimaryType → String → Instruction
return_instruction type source = instruction source type return_from

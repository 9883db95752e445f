-- ===== src/Code.antt =====
-- src/ast/statements and src/ast/operators: the instructions and the blocks that a statement of the
-- syntax tree is lowered to. A statement is its virtual functions: an operator that lowers its
-- operands takes them as values of `Code` or `Value`.
pub mod Operators
pub mod Atoms
pub mod Assignments
pub mod Logic
pub mod Statements
pub mod Control
pub mod Functions
use caramel.Prelude.{ℕ, String, Bool, true, false, Option, none, some, List, [], ◌∷◌}
use caramel.Types.{PrimaryType}
use caramel.Ir.{Instruction}
use caramel.Graph.{Lower, ◌>>=◌, pure, fail, add_to}

-- `getIR`, from the current block; the current block is passed by reference, so that the block in
-- which the instruction belongs comes back beside it.
abbrev pub GetIr : Type 0
GetIr = ℕ → Lower (Instruction × ℕ)

-- `getBasicBlock`: the first and the last block.
abbrev pub GetBasicBlock : Type 0
GetBasicBlock = Lower (ℕ × ℕ)

-- The virtual functions of `Statement`.
pub record Code : Type 0 where
  pub should_return_an_ir : Bool
  pub should_return_a_basic_block : Bool
  pub get_ir : GetIr
  pub get_basic_block : GetBasicBlock

-- The classes derived from `LValue`: an identifier, which an array may have, or an access to an array
-- with the type of the index and its code.
pub data Place : Type 0 where
  identifier : Bool → Place
  array_access : PrimaryType → GetIr → Place

-- An expression: its code, `getPrimaryType`, and for an `LValue` the name of the symbol and the class.
pub record Value : Type 0 where
  pub code : Code
  pub type : PrimaryType
  pub lvalue : Option (String × Place)

-- The functions that `Statement` throws from.
abbrev pub no_ir : GetIr
no_ir current = fail

abbrev pub no_basic_block : GetBasicBlock
no_basic_block = fail

abbrev pub ir_code : GetIr → Code
ir_code get = record {
  should_return_an_ir = true;
  should_return_a_basic_block = false;
  get_ir = get;
  get_basic_block = no_basic_block;
}

abbrev pub block_code : GetBasicBlock → Code
block_code get = record {
  should_return_an_ir = false;
  should_return_a_basic_block = true;
  get_ir = no_ir;
  get_basic_block = get;
}

abbrev pub no_code : Code
no_code = record {
  should_return_an_ir = false;
  should_return_a_basic_block = false;
  get_ir = no_ir;
  get_basic_block = no_basic_block;
}

-- An expression that is not an `LValue` and returns an instruction.
abbrev pub value : PrimaryType → GetIr → Value
value type get = record { code = ir_code get; type = type; lvalue = none }

-- `SAFE_ADD_INSTRUCTION`: the instruction is added to the block that is current after `getIR`.
unfoldable pub safe_add_instruction : GetIr → ℕ → Lower (String × ℕ)
safe_add_instruction get current = do
  (i, current') ← get current
  name ← add_to current' i
  pure (name, current')

-- ===== src/Code/Statements.antt =====
-- src/ast/statements/definition, src/ast/statements/jumps: the definitions of variables and arrays,
-- and the jumps.
use caramel.Prelude.{ℕ, ◌-◌, ltb, String, Option, none, some, List, [], ◌∷◌, if◌then◌else◌}
use caramel.Prelude.Int.{pos}
use caramel.Types.{PrimaryType}
use caramel.Cfg.{add_array_symbol, element_name}
use caramel.Ir.{unnamed, copy_instruction, nop, return_from, return_instruction, break_to}
use caramel.Graph.{Lower, ◌>>=◌, ◌>>◌, pure, fail, add_to, current_control_block_end}
use caramel.Code.{GetIr, Value, safe_add_instruction}
use caramel.Code.Atoms.{constant}

-- `VariableDefinition`, whose initializer is the constant 0 where none is given.
unfoldable pub initializer : Option Value → Value
unfolding constant
initializer none = constant (pos 0)
initializer (some e) = e

unfoldable pub variable_definition_ir : String → PrimaryType → Option Value → GetIr
unfolding initializer safe_add_instruction
variable_definition_ir name type init current = do
  (source, current') ← safe_add_instruction (initializer init).code.get_ir current
  pure (copy_instruction type name source, current')

-- `BasicBlock::addArraySymbol`
unfoldable pub add_array : ℕ → String → PrimaryType → ℕ → Lower (Unit {0})
add_array current name type size g =
    elim (add_array_symbol g.frames (g.blocks current).function_context name type size) [
      | some (index, frames') ↦ some (tt, record g { frames = frames' })
      | none ↦ none
    ]

-- The destination of an element.
abbrev destination : String → ℕ → String
destination name index = if ltb 0 index then element_name name index else name

-- The loop of `ArrayDefinition::getIR` over the elements from the last to the first, with the index
-- of the one before the last.
unfoldable pub fill : String → PrimaryType → ℕ → List Value → ℕ → Lower ℕ
unfolding safe_add_instruction
fill name type size [] current = pure current
fill name type size (e ∷ es) current = do
  (source, current') ← safe_add_instruction e.code.get_ir current
  add_to current' (copy_instruction type (destination name (size - 1)) source)
  fill name type (size - 1) es current'

-- The content is listed from the last element to the first; `none` is a content that is not defined.
unfoldable pub array_definition_ir : String → PrimaryType → ℕ → Option (List Value) → GetIr
unfolding add_array fill
array_definition_ir name type size none current = fail
array_definition_ir name type size (some elements) current = do
  add_array current name type size
  current' ← fill name type size elements current
  pure (unnamed nop, current')

-- `ReturnStatement`, with an expression or without.
unfoldable pub return_ir : Option Value → GetIr
unfolding safe_add_instruction
return_ir (some e) current = do
  (source, current') ← safe_add_instruction e.code.get_ir current
  pure (return_instruction e.type source, current')
return_ir none current = pure (unnamed return_from, current)

unfoldable pub break_ir : GetIr
unfolding current_control_block_end
break_ir current = do label ← current_control_block_end; pure (unnamed (break_to label), current)

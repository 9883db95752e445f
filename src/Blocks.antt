-- ===== src/Blocks.antt =====
-- src/ir/BasicBlock.cpp: a block of the control-flow graph and the registration of what its
-- instructions return. The graph that a block points to is passed beside it, as its frames.
pub mod Registered
pub mod Assembly
pub mod Order
pub mod Program
mod Tests
use caramel.Prelude.{
  ℕ, ltb, String, Bool, true, false, ◌&&◌, not, Option, none, some, List, [], ◌∷◌, ◌++◌,
  if◌then◌else◌,
}
use caramel.Types.{memory_length}
use caramel.Cfg.{Frames, has_symbol, add_symbol}
use caramel.Ir.{Instruction}
use caramel.X86.{is_register}

-- The exits are the numbers of blocks; `none` is a null pointer.
pub record Block : Type 0 where
  pub id : ℕ
  pub function_context : ℕ
  pub label_name : String
  pub instructions : List Instruction
  pub exit_when_true : Option ℕ
  pub exit_when_false : Option ℕ

unfoldable pub is_empty : String → Bool
is_empty String.[] = true
is_empty (String.◌∷◌ c rest) = false

-- Whether the instruction returns a value that has a slot: one with a name that is not a register's,
-- and a size.
unfoldable pub returns_value : Instruction → Bool
unfolding is_empty is_register
returns_value i =
    not (is_empty i.return_name) && not (is_register i.return_name) && ltb 0 (memory_length i.type)

abbrev pub with_instruction : Instruction → Block → Block
with_instruction i block = record block { instructions = block.instructions ++ i ∷ [] }

-- The frames with a slot for what the instruction returns; `none` is the `exit` of `addSymbol`.
unfoldable pub register : Instruction → ℕ → Frames → Option Frames
unfolding returns_value
register i context frames =
    if returns_value i
    then (if has_symbol frames context i.return_name
        then some frames
        else only_frames (add_symbol frames context i.return_name i.type))
    else some frames
  where
    only_frames : {A : Type 0} → Option (A × Frames) → Option Frames
    only_frames none = none
    only_frames (some (index, frames')) = some frames'

-- `addInstruction`
unfoldable pub add_instruction : Instruction → Block → Frames → Option (Block × Frames)
unfolding register
add_instruction i block frames = elim (register i block.function_context frames) [
  | some frames' ↦ some (with_instruction i block, frames')
  | none ↦ none
]

-- A sequence of calls of `addInstruction` on one block.
unfoldable pub add_instructions : List Instruction → Block → Frames → Option (Block × Frames)
unfolding add_instruction
add_instructions [] block frames = some (block, frames)
add_instructions (i ∷ is) block frames = elim (add_instruction i block frames) [
  | some (block', frames') ↦ add_instructions is block' frames'
  | none ↦ none
]

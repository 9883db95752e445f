-- ===== src/Graph.antt =====
-- src/ir/CFG.cpp, src/ir/BasicBlock.cpp: the control-flow graph under construction. A shared pointer
-- to a block is the number of the block, a null pointer is `none`, and what is reached through a
-- pointer is read in the heap `blocks`. The static counters of the classes are fields of the graph.

pub mod Ensured
pub mod Extends
pub mod Operations
pub mod Chain
pub mod Exits
use Prim.Native.String.{◌++◌ as ◌<>◌}
use caramel.Prelude.{
  ℕ, suc, ◌==◌, String, Option, none, some, List, [], ◌∷◌, ◌++◌, to_string, is_some, if◌then◌else◌,
}
use caramel.Cfg.{Frames, no_frame, enter_function}
use caramel.Ir.{Instruction}
use caramel.Blocks.{Block, add_instruction}

-- `blocks` is the heap; `function_ends` is `mFunctionBBEnd`, `control_block_ends` the stack of the
-- last blocks of the loops around, `roots` is `mFunctionsBasicBlocks`.
-- `next_number_name` counts the labels, `next_variable`, which is `lastTemVarNumber + 1`, the temporary
-- variables, and `conjunctions` and `disjunctions` the operators of the two kinds.
pub record Graph : Type 0 where
  pub blocks : ℕ → Block
  pub next_block_number : ℕ
  pub next_function_context : ℕ
  pub frames : Frames
  pub function_ends : ℕ → Option ℕ
  pub control_block_ends : List ℕ
  pub roots : List ℕ
  pub next_number_name : ℕ
  pub next_variable : ℕ
  pub conjunctions : ℕ
  pub disjunctions : ℕ

-- The constructor of `BasicBlock`.
abbrev pub new_block : ℕ → ℕ → String → Block
new_block id context name = record {
  id = id;
  function_context = context;
  label_name = name;
  instructions = [];
  exit_when_true = none;
  exit_when_false = none;
}

abbrev pub no_graph : Graph
no_graph = record {
  blocks = λ id. new_block id 0 "";
  next_block_number = 0;
  next_function_context = 0;
  frames = λ _. no_frame;
  function_ends = λ _. none;
  control_block_ends = [];
  roots = [];
  next_number_name = 0;
  next_variable = 0;
  conjunctions = 0;
  disjunctions = 0;
}

-- A part of the construction; `none` is an `exit`, a null pointer that is read, or an exception.
abbrev pub Lower : Type 0 → Type 0
Lower A = Graph → Option (A × Graph)

infixl 5 ◌>>=◌ ◌>>◌
unfoldable pub ◌>>=◌ : {A B : Type 0} → Lower A → (A → Lower B) → Lower B
◌>>=◌ part rest g = elim (part g) [ some (a, g') ↦ rest a g' | none ↦ none ]

abbrev pub ◌>>◌ : {A B : Type 0} → Lower A → Lower B → Lower B
part >> rest = part >>= λ _. rest

abbrev pub pure : {A : Type 0} → A → Lower A
pure a g = some (a, g)

abbrev pub fail : {A : Type 0} → Lower A
fail g = none

abbrev pub not_null : {A : Type 0} → Option A → Lower A
not_null none = fail
not_null (some a) = pure a

-- The heap with another block under a number.
abbrev pub store : ℕ → Block → (ℕ → Block) → ℕ → Block
store id block blocks k = if k == id then block else blocks k

abbrev pub change : ℕ → (Block → Block) → Lower (Unit {0})
change id f g = some (tt, record g { blocks = store id (f (g.blocks id)) g.blocks })

-- `setExitWhenTrue`, `setExitWhenFalse`
unfoldable pub set_exit_when_true : ℕ → Option ℕ → Lower (Unit {0})
set_exit_when_true id exit = change id (λ b. record b { exit_when_true = exit })

unfoldable pub set_exit_when_false : ℕ → Option ℕ → Lower (Unit {0})
set_exit_when_false id exit = change id (λ b. record b { exit_when_false = exit })

-- `getNextWhenTrue`, `getNextWhenFalse`
abbrev pub next_when_true : ℕ → Lower (Option ℕ)
next_when_true id g = some ((g.blocks id).exit_when_true, g)

abbrev pub next_when_false : ℕ → Lower (Option ℕ)
next_when_false id g = some ((g.blocks id).exit_when_false, g)

-- `addInstruction`
unfoldable pub add_to : ℕ → Instruction → Lower String
add_to id i g = elim (add_instruction i (g.blocks id) g.frames) [
  | some (block, frames') ↦
      some (i.return_name, record g { blocks = store id block g.blocks; frames = frames' })
  | none ↦ none
]

-- `generateBasicBlock`
unfoldable pub generate_basic_block : String → Lower ℕ
generate_basic_block name g =
    let id = suc g.next_block_number in
    some (
      id,
      record g {
        blocks = store id (new_block id g.next_function_context name) g.blocks;
        next_block_number = id;
      },
    )

-- `generateFunctionBlock`
unfoldable pub generate_function_block : String → Lower ℕ
generate_function_block name g =
    let id = suc g.next_block_number in
    let context = suc g.next_function_context in
    some (
      id,
      record g {
        blocks = store id (new_block id context name) g.blocks;
        next_block_number = id;
        next_function_context = context;
      },
    )

-- `BasicBlock::getNextNumberName`
unfoldable pub get_next_number_name : Lower String
get_next_number_name g =
    some
      (".L" <> to_string g.next_number_name, record g { next_number_name = suc g.next_number_name })

-- `generateBasicBlock(getNextNumberName() + suffix)`
unfoldable pub named_block : String → Lower ℕ
unfolding get_next_number_name generate_basic_block
named_block suffix = do name ← get_next_number_name; generate_basic_block (name <> suffix)

-- `getNewWhenTrueBasicBlock`
unfoldable pub get_new_when_true_basic_block : ℕ → String → Lower ℕ
unfolding named_block set_exit_when_true set_exit_when_false
get_new_when_true_basic_block id suffix = do
  child ← named_block suffix
  when_true ← next_when_true id
  if is_some when_true then set_exit_when_true child when_true else pure tt
  when_false ← next_when_false id
  if is_some when_false then set_exit_when_false child when_false else pure tt
  set_exit_when_true id (some child)
  pure child

-- `Statement::createVarName`
unfoldable pub create_var_name : Lower String
create_var_name g =
    some ("!tmp" <> to_string g.next_variable, record g { next_variable = suc g.next_variable })

-- `CFG::enterFunction`
unfoldable pub enter : ℕ → Lower (Unit {0})
enter id g = some (tt, record g { frames = enter_function g.frames id })

-- `addFunctionBBEnd`
unfoldable pub add_function_bb_end : ℕ → ℕ → Lower (Unit {0})
add_function_bb_end context id g =
    some (tt, record g { function_ends = λ k. if k == context then some id else g.function_ends k })

-- `addBasicBlock`
unfoldable pub add_basic_block : ℕ → Lower (Unit {0})
add_basic_block id g = some (tt, record g { roots = g.roots ++ id ∷ [] })

-- `pushCurrentControlBlockEndBB`
unfoldable pub push_control_block_end : ℕ → Lower (Unit {0})
push_control_block_end id g = some (tt, record g { control_block_ends = id ∷ g.control_block_ends })

unfoldable pub without_top : List ℕ → Option (List ℕ)
without_top [] = none
without_top (id ∷ ids) = some ids

-- `popCurrentControlBlockEndBB`, which `std::stack` does not define on an empty stack.
unfoldable pub pop_control_block_end : Lower (Unit {0})
unfolding without_top
pop_control_block_end g = elim (without_top g.control_block_ends) [
  | some ids ↦ some (tt, record g { control_block_ends = ids })
  | none ↦ none
]

unfoldable pub top_of : List ℕ → Option ℕ
top_of [] = none
top_of (id ∷ ids) = some id

-- `getCurrentControlBlockEndBB`, which exits on an empty stack, and the label of that block.
unfoldable pub current_control_block_end : Lower String
unfolding top_of
current_control_block_end g = elim (top_of g.control_block_ends) [
  | some id ↦ some ((g.blocks id).label_name, g)
  | none ↦ none
]

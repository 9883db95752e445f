-- ===== src/Code/Logic.antt =====
-- ConjunctionOperator.cpp, DisjunctionOperator.cpp: the operators that do not evaluate the right
-- operand where the left decides, and return blocks.
use Prim.Native.String.{◌++◌ as ◌<>◌}
use caramel.Prelude.{
  ℕ, suc, String, true, false, Option, none, some, List, [], ◌∷◌, to_string, is_some, if◌then◌else◌,
}
use caramel.Types.{max_type, int64_t}
use caramel.Ir.{Instruction, instruction, ld_const, empty}
use caramel.Graph.{
  Lower, ◌>>=◌, ◌>>◌, pure, not_null, create_var_name, add_to, named_block, set_exit_when_true,
  set_exit_when_false, next_when_true, next_when_false,
}
use caramel.Code.{GetIr, GetBasicBlock, Value, safe_add_instruction}

-- The number of an operator in the labels of its blocks.
unfoldable pub count_conjunction : Lower ℕ
count_conjunction g = some (suc g.conjunctions, record g { conjunctions = suc g.conjunctions })

unfoldable pub count_disjunction : Lower ℕ
count_disjunction g = some (suc g.disjunctions, record g { disjunctions = suc g.disjunctions })

-- The block of the operator with a label.
abbrev operator_block : ℕ → String → Lower ℕ
operator_block number suffix = named_block ("_" <> (to_string number <> suffix))

-- The left operand, in the start block or in blocks of its own that take its exits: the first block,
-- and the last of the left operand.
unfoldable pub left_operand : Value → ℕ → Lower (ℕ × ℕ)
unfolding safe_add_instruction set_exit_when_true set_exit_when_false
left_operand left start =
    if left.code.should_return_an_ir
    then (do (name, start') ← safe_add_instruction left.code.get_ir start; pure (start', start'))
    else (do
      (first, last) ← left.code.get_basic_block
      when_true ← next_when_true start
      set_exit_when_true last when_true
      when_false ← next_when_false start
      set_exit_when_false last when_false
      pure (first, last))

-- The right operand, behind an exit of the last block of the left.
unfoldable pub right_operand :
    (ℕ → Option ℕ → Lower (Unit {0})) → ℕ → Value → ℕ → ℕ → ℕ → Lower (Unit {0})
unfolding safe_add_instruction named_block set_exit_when_true set_exit_when_false
right_operand set_exit number right on_true on_false last_left =
    if right.code.should_return_an_ir
    then (do
      middle ← operator_block number "_and_mid"
      (name, middle') ← safe_add_instruction right.code.get_ir middle
      set_exit_when_true middle' (some on_true)
      set_exit_when_false middle' (some on_false)
      set_exit last_left (some middle'))
    else (do
      (first, last) ← right.code.get_basic_block
      set_exit last_left (some first)
      set_exit_when_true last (some on_true)
      set_exit_when_false last (some on_false))

-- The exits and the instructions of the start and of the two blocks that load the result: the
-- variable of the result.
unfoldable pub fill_operator : ℕ → ℕ → ℕ → ℕ → Lower String
unfolding set_exit_when_true set_exit_when_false create_var_name
fill_operator start on_true on_false end = do
  set_exit_when_true start (some on_true)
  set_exit_when_false start (some on_false)
  name ← create_var_name
  set_exit_when_true on_true (some end)
  add_to on_true (instruction name int64_t (ld_const "1"))
  set_exit_when_true on_false (some end)
  add_to on_false (instruction name int64_t (ld_const "0"))
  pure name

-- The blocks of an operator before those of the operands: the start, the two that load the result, and
-- the end.
unfoldable pub operator_blocks : ℕ → Lower (ℕ × ℕ × ℕ × ℕ)
unfolding named_block fill_operator
operator_blocks number = do
  start ← operator_block number "_and_start"
  on_true ← operator_block number "_and_true"
  on_false ← operator_block number "_and_false"
  end ← operator_block number "_and_end"
  name ← fill_operator start on_true on_false end
  add_to end (instruction name int64_t empty)
  pure (start, on_true, on_false, end)

-- The common body of the two operators: what counts them, and the exit of the left operand behind
-- which the right operand is evaluated.
unfoldable pub short_circuit :
    Lower ℕ → (ℕ → Option ℕ → Lower (Unit {0})) → Value → Value → GetBasicBlock
unfolding left_operand right_operand operator_blocks
short_circuit count set_exit left right = do
  number ← count
  (start, on_true, on_false, end) ← operator_blocks number
  (start', last_left) ← left_operand left start
  right_operand set_exit number right on_true on_false last_left
  pure (start', end)

unfoldable pub conjunction_blocks : Value → Value → GetBasicBlock
unfolding short_circuit count_conjunction set_exit_when_true
conjunction_blocks = short_circuit count_conjunction set_exit_when_true

unfoldable pub disjunction_blocks : Value → Value → GetBasicBlock
unfolding short_circuit count_disjunction set_exit_when_false
disjunction_blocks = short_circuit count_disjunction set_exit_when_false

-- `getInstructions().back()`
unfoldable pub last_of : List Instruction → Option Instruction
last_of [] = none
last_of (i ∷ []) = some i
last_of (i ∷ j ∷ is) = last_of (j ∷ is)

-- The common `getIR`: the current block leads to the blocks of the operator, and the last of these
-- takes its exits and its place.
unfoldable pub short_circuit_ir : GetBasicBlock → GetIr
unfolding last_of set_exit_when_true set_exit_when_false
short_circuit_ir get current = do
  (start, end) ← get
  when_true ← next_when_true current
  when_false ← next_when_false current
  if is_some when_true then set_exit_when_true end when_true else pure tt
  if is_some when_false then set_exit_when_false end when_false else pure tt
  set_exit_when_true current (some start)
  set_exit_when_false current none
  block ← (λ g. some (g.blocks end, g))
  last ← not_null (last_of block.instructions)
  pure (instruction last.return_name last.type empty, end)

abbrev pub logic_value : GetBasicBlock → Value → Value → Value
logic_value get left right = record {
  code = record {
    should_return_an_ir = false;
    should_return_a_basic_block = true;
    get_ir = short_circuit_ir get;
    get_basic_block = get;
  };
  type = max_type left.type right.type;
  lvalue = none;
}

abbrev pub conjunction_operator : Value → Value → Value
conjunction_operator left right = logic_value (conjunction_blocks left right) left right

abbrev pub disjunction_operator : Value → Value → Value
disjunction_operator left right = logic_value (disjunction_blocks left right) left right

-- ===== src/Code/Control.antt =====
-- src/ast/statements/controlblocks: the blocks that conditions and loops are lowered to.
use caramel.Prelude.{ℕ, String, some, List, [], ◌∷◌, if◌then◌else◌}
use caramel.Graph.{
  Lower, ◌>>=◌, ◌>>◌, pure, named_block, set_exit_when_true, set_exit_when_false, next_when_true,
  get_new_when_true_basic_block, push_control_block_end, pop_control_block_end,
}
use caramel.Code.{GetBasicBlock, Code, Value, safe_add_instruction}

-- A statement of a body: its instruction in the current block, or its blocks between the current block
-- and what follows it, and then a new current block with a label of that suffix.
unfoldable pub add_statement : String → Code → ℕ → Lower ℕ
unfolding safe_add_instruction set_exit_when_true get_new_when_true_basic_block
add_statement suffix statement current =
    if statement.should_return_an_ir
    then (do (name, current') ← safe_add_instruction statement.get_ir current; pure current')
    else if statement.should_return_a_basic_block
    then (do
      (first, last) ← statement.get_basic_block
      when_true ← next_when_true current
      set_exit_when_true last when_true
      set_exit_when_true current (some first)
      get_new_when_true_basic_block last suffix)
    else pure current

unfoldable pub add_statements : String → List Code → ℕ → Lower ℕ
unfolding add_statement
add_statements suffix [] current = pure current
add_statements suffix (s ∷ ss) current = do
  current' ← add_statement suffix s current
  add_statements suffix ss current'

-- The condition of an `if`, in its block or in blocks of its own: the block whose exits are set later.
unfoldable pub if_condition : Value → ℕ → ℕ → ℕ → Lower ℕ
unfolding safe_add_instruction set_exit_when_true set_exit_when_false
if_condition condition block on_true on_false =
    if condition.code.should_return_an_ir
    then (do (name, block') ← safe_add_instruction condition.code.get_ir block; pure block')
    else if condition.code.should_return_a_basic_block
    then (do
      (first, last) ← condition.code.get_basic_block
      set_exit_when_true last (some on_true)
      set_exit_when_false last (some on_false)
      pure first)
    else pure block

-- The end of `IfBlock::getBasicBlock`, without and with an `else`.
unfoldable pub else_branch : List Code → ℕ → ℕ → ℕ → Lower (Unit {0})
unfolding add_statements set_exit_when_true set_exit_when_false
else_branch [] block on_false end = set_exit_when_false block (some end)
else_branch (s ∷ ss) block on_false end = do
  set_exit_when_false block (some on_false)
  set_exit_when_true on_false (some end)
  add_statements "_elseafter" (s ∷ ss) on_false
  pure tt

unfoldable pub if_block : Value → List Code → List Code → GetBasicBlock
unfolding if_condition add_statements else_branch named_block set_exit_when_true
if_block condition then_block else_block = do
  block ← named_block "_cond"
  on_true ← named_block "_then"
  on_false ← named_block "_else"
  end ← named_block "_end"
  set_exit_when_true block (some on_true)
  set_exit_when_true on_true (some end)
  block' ← if_condition condition block on_true on_false
  add_statements "_thenafter" then_block on_true
  else_branch else_block block' on_false end
  pure (block', end)

-- The condition of a loop: its instruction is added to the block, or its blocks lead to the body and to
-- the end. `blocks` are those of the condition, and the block that comes back is the last.
unfoldable pub loop_condition : Code → GetBasicBlock → String → ℕ → ℕ → ℕ → Lower ℕ
unfolding safe_add_instruction set_exit_when_true set_exit_when_false get_new_when_true_basic_block
loop_condition condition blocks suffix block body end =
    if condition.should_return_an_ir
    then (do (name, block') ← safe_add_instruction condition.get_ir block; pure block')
    else if condition.should_return_a_basic_block
    then (do
      (first, last) ← blocks
      set_exit_when_true block (some first)
      set_exit_when_true last (some body)
      set_exit_when_false last (some end)
      get_new_when_true_basic_block last suffix)
    else pure block

unfoldable pub while_block : Value → List Code → GetBasicBlock
unfolding loop_condition add_statements named_block set_exit_when_true set_exit_when_false
    push_control_block_end pop_control_block_end
while_block condition body = do
  block ← named_block "_Wcond"
  on_true ← named_block "_Wthen"
  end ← named_block "_Wend"
  push_control_block_end end
  set_exit_when_true block (some on_true)
  set_exit_when_false block (some end)
  set_exit_when_true on_true (some block)
  block' ←
      loop_condition condition.code condition.code.get_basic_block "_Wcondafter" block on_true end
  add_statements "_Wthenafter" body on_true
  pop_control_block_end
  pure (block', end)

-- The source returns the block of the body that is current at its end as the first of the loop.
unfoldable pub do_while_block : Value → List Code → GetBasicBlock
unfolding loop_condition add_statements named_block set_exit_when_true set_exit_when_false
    push_control_block_end pop_control_block_end
do_while_block condition body = do
  block ← named_block "_DWcond"
  action ← named_block "_DWaction"
  end ← named_block "_DWend"
  push_control_block_end end
  set_exit_when_true action (some block)
  set_exit_when_true block (some action)
  set_exit_when_false block (some end)
  loop_condition condition.code condition.code.get_basic_block "_DWcondafter" block action end
  action' ← add_statements "_DWthenafter" body action
  pop_control_block_end
  pure (action', end)

-- The exits that a `for` gives its blocks before they are filled.
unfoldable pub link_for : ℕ → ℕ → ℕ → ℕ → ℕ → Lower (Unit {0})
unfolding set_exit_when_true set_exit_when_false
link_for init block on_true increment end = do
  set_exit_when_true init (some block)
  set_exit_when_true block (some on_true)
  set_exit_when_false block (some end)
  set_exit_when_true on_true (some increment)
  set_exit_when_true increment (some block)

-- The blocks of a condition that has them are those of the initialisation, as in the source.
unfoldable pub for_block : Value → Value → Value → List Code → GetBasicBlock
unfolding loop_condition add_statement add_statements named_block link_for push_control_block_end
    pop_control_block_end
for_block first condition step body = do
  init ← named_block "_Finit"
  block ← named_block "_Fcond"
  on_true ← named_block "_Fthen"
  increment ← named_block "_Finc"
  end ← named_block "_Fend"
  push_control_block_end end
  link_for init block on_true increment end
  init' ← add_statement "_Finitafter" first.code init
  loop_condition condition.code first.code.get_basic_block "_Fcondafter" block on_true end
  add_statements "_Fthenafter" body on_true
  add_statement "_Fincafter" step.code increment
  pop_control_block_end
  pure (init', end)

-- ===== src/Code/Functions.antt =====
-- FunctionDefinition.cpp, and the constructor of `CFG`: the blocks of a function and of a program.
use Prim.Native.String.{◌++◌ as ◌<>◌}
use caramel.Prelude.{
  ℕ, suc, ◌+◌, ◌*◌, ltb, ◌==◌, String, Bool, true, false, ◌||◌, some, List, [], ◌∷◌, is_some,
  if◌then◌else◌,
}
use Prim.Native.Char.{code}
use caramel.Prelude.Int.{pos}
use caramel.Types.{PrimaryType, int64_t}
use caramel.Cfg.{add_param_array_symbol, add_symbol_at}
use caramel.Symbols.{SymbolType, array_symbol, FunctionParameterSignature}
use caramel.Ir.{unnamed, copy_from_register, prolog, epilog}
use caramel.Blocks.{is_empty}
use caramel.Graph.{
  Lower, ◌>>=◌, ◌>>◌, pure, fail, add_to, named_block, generate_function_block, enter,
  set_exit_when_true, next_when_true, get_new_when_true_basic_block, add_function_bb_end,
  add_basic_block,
}
use caramel.Code.{GetBasicBlock, Code, safe_add_instruction}

-- `BasicBlock::addParamArraySymbol`, and `BasicBlock::addSymbol` at an offset.
unfoldable pub add_param_array : ℕ → String → PrimaryType → Lower (Unit {0})
add_param_array current name type g = some (
  tt,
  record g {
    frames = (add_param_array_symbol g.frames (g.blocks current).function_context name type).1;
  },
)

unfoldable pub add_at : ℕ → String → PrimaryType → ℕ → Lower (Unit {0})
add_at current name type offset g = some (
  tt,
  record g {
    frames = (add_symbol_at g.frames (g.blocks current).function_context name type (pos offset)).1;
  },
)

starts_by_underscore : String → Bool
starts_by_underscore String.[] = false
starts_by_underscore (String.◌∷◌ c rest) = code c == b'_'

starts_by_two : String → Bool
unfolding starts_by_underscore
starts_by_two String.[] = false
starts_by_two (String.◌∷◌ c rest) = if code c == b'_' then starts_by_underscore rest else false

-- A parameter without a name, or with one that the front end made up.
unfoldable pub is_unnamed : String → Bool
unfolding is_empty starts_by_two
is_unnamed name = is_empty name || starts_by_two name

unfoldable pub is_array_parameter : SymbolType → Bool
is_array_parameter array_symbol = true
is_array_parameter _ = false

-- The slot of a parameter: a copy from a register for the first six, and the stack for the others.
unfoldable pub add_parameter : ℕ → ℕ → FunctionParameterSignature → Lower (Unit {0})
unfolding add_at
add_parameter root i p =
    if ltb i 6
    then (do add_to root (copy_from_register p.primary_type p.name i); pure tt)
    else add_at root p.name int64_t (16 + i * 8)

-- The loop over the parameters from number `i` on, which ends at the first that is unnamed.
unfoldable pub add_parameters : ℕ → ℕ → List FunctionParameterSignature → Lower (Unit {0})
unfolding add_param_array add_parameter is_unnamed is_array_parameter
add_parameters root i [] = pure tt
add_parameters root i (p ∷ ps) =
    let rest = add_parameter root i p >> add_parameters root (suc i) ps in
    let array =
      if is_array_parameter p.symbol_type
      then add_param_array root p.name p.primary_type
      else pure tt in
    array >> (if is_unnamed p.name then pure tt else rest)

-- The loop over the statements of a function, whose last block is `end`.
unfoldable pub add_function_statement : ℕ → Code → ℕ → Lower ℕ
unfolding safe_add_instruction set_exit_when_true get_new_when_true_basic_block
add_function_statement end statement current =
    if statement.should_return_an_ir
    then (do (name, current') ← safe_add_instruction statement.get_ir current; pure current')
    else if statement.should_return_a_basic_block
    then (do
      (first, last) ← statement.get_basic_block
      when_true ← next_when_true current
      if is_some when_true then pure tt else fail
      set_exit_when_true current (some first)
      set_exit_when_true last (some end)
      get_new_when_true_basic_block last "_funcinnerafter")
    else pure current

unfoldable pub add_function_statements : ℕ → List Code → ℕ → Lower ℕ
unfolding add_function_statement
add_function_statements end [] current = pure current
add_function_statements end (s ∷ ss) current = do
  current' ← add_function_statement end s current
  add_function_statements end ss current'

unfoldable pub function_definition :
    String → List FunctionParameterSignature → List Code → GetBasicBlock
unfolding generate_function_block enter add_parameters named_block set_exit_when_true
    add_function_bb_end get_new_when_true_basic_block add_function_statements
function_definition name parameters statements = do
  root ← generate_function_block name
  enter root
  add_to root (unnamed prolog)
  add_parameters root 0 parameters
  end ← named_block ("_endof_" <> name)
  set_exit_when_true root (some end)
  block ← (λ g. some (g.blocks root, g))
  add_function_bb_end block.function_context end
  inner ← get_new_when_true_basic_block root ("_innerbeginof_" <> name)
  add_function_statements end statements inner
  add_to end (unnamed epilog)
  pure (root, end)

-- The constructor of `CFG`, on the blocks of the function definitions of the root context; the other
-- statements of it are skipped.
unfoldable pub add_functions : List GetBasicBlock → Lower (Unit {0})
unfolding add_basic_block
add_functions [] = pure tt
add_functions (f ∷ fs) = do (first, last) ← f; add_basic_block first; add_functions fs

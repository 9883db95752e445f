-- ===== src/Syntax/Tests.antt =====
-- The graphs of small programs, and the theorems on concrete trees.
use caramel.Prelude.{
  ℕ, String, true, false, Option, none, some, List, [], ◌∷◌, ◌≡◌, ◌⊎◌, ◌↔◌, ◌≢◌, ◌<◌, ◌≤◌, refl,
  arith,
}
use caramel.Prelude.Int.{pos}
use caramel.Types.{int32_t}
use caramel.Ir.{Instruction, addition}
use caramel.Graph.{Graph, no_graph}
use caramel.Graph.Extends.{IsValid}
use caramel.Code.Assignments.{operate_on}
use caramel.Code.Atoms.{constant as constant_value}
use caramel.Syntax.Lowerable.{
  can_lower_program, can_lower, is_lowerable, is_lowerable_optional, assigns, is_lvalue,
}
use caramel.Syntax.{
  Expression, constant, identifier, array_access, binary, Statement, Statements, no_statement,
  statements, expression, if_statement, while_statement, return_statement, break_statement,
  Function, control_flow_graph, conjunction, lower_than, plus, assignment, bitwise_xor, value_of,
  code_of, post_decr,
}
use caramel.Syntax.Programs.{control_flow_graph-IsValid}
use caramel.Syntax.Nodes.{value_of-get_ir, code_of-get_basic_block}
use caramel.Syntax.Elements.{operate_on-array_access}
use caramel.Syntax.Tokens.{
  get_token, get_op_for_token, get_op_for_token_iff, get_unary_token, get_prefix_op_for_token,
  get_postfix_op_for_token, get_prefix_op_for_token_iff, is_prefix,
}

abbrev variable : String → Expression
variable name = identifier name int32_t none

abbrev one_statement : Statement → Statements
one_statement s = statements s no_statement

abbrev bounded : Expression
bounded = binary conjunction (binary lower_than (variable "x") (constant (pos 3))) (variable "y")

-- while (x < 3 && y) { if (x) { break; } x = x + 1; }
abbrev example_loop : Statement
example_loop = while_statement bounded (
    statements (if_statement (variable "x") (one_statement break_statement) no_statement) (
      one_statement (
        expression
          (binary assignment (variable "x") (binary plus (variable "x") (constant (pos 1)))))))

abbrev program : List Function
program =
    record { name = "f"; parameters = []; body = one_statement example_loop }
    ∷ record { name = "g"; parameters = []; body = one_statement (return_statement none) }
    ∷ []

program-can_lower : can_lower_program program ≡ true
unfolding can_lower_program can_lower is_lowerable is_lowerable_optional assigns is_lvalue
program-can_lower = refl

control_flow_graph-IsValid_example : (g : Graph) × (control_flow_graph program ≡ some g) × IsValid g
control_flow_graph-IsValid_example = control_flow_graph-IsValid program program-can_lower

-- A graph of one block, with the number 1.
abbrev one_block : Graph
one_block = record no_graph { next_block_number = 1 }

one_block-IsValid : IsValid one_block
one_block-IsValid = record { closed = λ k. (tt, tt); rooted = λ r m. absurd (cc (m)) }

bounded-is_lowerable : is_lowerable bounded ≡ true
unfolding is_lowerable assigns is_lvalue
bounded-is_lowerable = refl

value_of-get_ir_example :
    (i : Instruction) × (b' : ℕ) × (g' : Graph) × ((value_of bounded).code.get_ir 1 one_block
      ≡ some ((i, b'), g'))
    × ((b' ≡ 1) ⊎ (1 < b'))
    × ((g'.blocks b').exit_when_true ≡ none)
    × ((g'.blocks b').exit_when_false ≡ none)
    × ((k : ℕ) → k ≤ 1 → k ≢ 1 → g'.blocks k ≡ one_block.blocks k)
    × (g'.control_block_ends ≡ [])
value_of-get_ir_example =
    value_of-get_ir bounded one_block 1 bounded-is_lowerable one_block-IsValid
      (omega arith, omega arith)

loop-can_lower : can_lower false example_loop ≡ true
unfolding can_lower is_lowerable assigns is_lvalue
loop-can_lower = refl

loop-has_blocks :
    ((code_of example_loop).should_return_an_ir ≡ false)
    × ((code_of example_loop).should_return_a_basic_block ≡ true)
unfolding code_of
loop-has_blocks = (refl, refl)

code_of-get_basic_block_example :
    (first last : ℕ) × (g' : Graph) × ((code_of example_loop).get_basic_block one_block
      ≡ some ((first, last), g'))
    × (1 < first)
    × (1 < last)
    × ((g'.blocks last).exit_when_true ≡ none)
    × ((g'.blocks last).exit_when_false ≡ none)
    × ((k : ℕ) → k ≤ 1 → g'.blocks k ≡ one_block.blocks k)
    × (g'.control_block_ends ≡ [])
code_of-get_basic_block_example =
    code_of-get_basic_block false example_loop one_block loop-can_lower loop-has_blocks.0
      loop-has_blocks.1 one_block-IsValid (λ e. absurd (cc (e)))

constant-is_lowerable : is_lowerable (constant (pos 2)) ≡ true
unfolding is_lowerable
constant-is_lowerable = refl

variable-is_lowerable : is_lowerable (variable "x") ≡ true
unfolding is_lowerable
variable-is_lowerable = refl

-- a[2] += x
operate_on-array_access_example :
    (i : Instruction) × (b' : ℕ) × (g' : Graph) × (operate_on addition
        (value_of (array_access "a" int32_t (constant (pos 2))))
        (value_of (variable "x"))
        1
        one_block
      ≡ some ((i, b'), g'))
    × (i.return_name ≡ "a")
operate_on-array_access_example =
    operate_on-array_access addition "a" int32_t (constant (pos 2)) (variable "x") 1 one_block
      constant-is_lowerable variable-is_lowerable one_block-IsValid (omega arith, omega arith)

get_op_for_token_iff_example :
    (get_op_for_token "^" ≡ some bitwise_xor) ↔ (get_token bitwise_xor ≡ "^")
get_op_for_token_iff_example = get_op_for_token_iff "^" bitwise_xor

get_prefix_op_for_token_iff_example :
    ((get_prefix_op_for_token "--" ≡ some post_decr)
      ↔ ((get_unary_token post_decr ≡ "--") × (is_prefix post_decr ≡ true)))
    × ((get_postfix_op_for_token "--" ≡ some post_decr)
        ↔ ((get_unary_token post_decr ≡ "--") × (is_prefix post_decr ≡ false)))
get_prefix_op_for_token_iff_example = get_prefix_op_for_token_iff "--" post_decr

graph_of : Option Graph → Graph
graph_of none = no_graph
graph_of (some g) = g

abbrev graph : Graph
graph = graph_of (control_flow_graph program)

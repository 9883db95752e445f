-- ===== src/Parse.antt =====
-- src/grammar/Caramel_v9.g4: the trees of the parser, with a constructor for each context class that
-- the visitor tells apart. A rule that has only one child in a tree is `single_child`, and the token of
-- an operator, a name or a type is its text. The levels of the operators are not kept apart.
use caramel.Prelude.{ℕ, String, Bool, Option, List}

-- The rules of the binary operators: those whose operator is a rule of its own, and the others.
pub data Rule : Type 0 where
  additive_expression multiplicative_expression bitwise_shift_expression : Rule
  comparison equality_comparison : Rule
  and_bitwise_expression xor_bitwise_expression or_bitwise_expression conjunction disjunction : Rule

-- `number_context` has whether a minus stands before the digits, and the number that they are;
-- `char_context` has the bytes of the token, with its quotes.
mutual
  pub data Tree : Type 0 where
    single_child : Tree → Tree
    comma_context : Trees → Tree
    assignment_context : Lvalue → String → Tree → Tree
    binary_context : Rule → String → Tree → Tree → Tree
    prefix_unary_context : Option String → Tree → Tree
    postfix_unary_context : Option String → Tree → Tree
    call_context : String → Trees → Tree
    lvalue_context : Lvalue → Tree
    number_context : Bool → ℕ → Tree
    char_context : List ℕ → Tree
    parentheses_context : Tree → Tree

  pub data Lvalue : Type 0 where
    identifier_context : String → Lvalue
    array_access_context : String → Tree → Lvalue

  pub data Trees : Type 0 where
    no_tree : Trees
    trees : Tree → Trees → Trees

-- An argument has its type, its name if there is one, whether it is an array, and where it starts.
pub record FunctionArgument : Type 0 where
  pub type : String
  pub name : Option String
  pub is_array : Bool
  pub line : ℕ
  pub column : ℕ

-- `functionDeclarationInner`
pub record FunctionInner : Type 0 where
  pub type : String
  pub name : String
  pub arguments : List FunctionArgument

-- `arraySizedInner`, or `arrayUnsizedInner` with no size.
pub record ArrayInner : Type 0 where
  pub type : String
  pub name : String
  pub size : Option ℕ

-- The rules of an `else` are those of the optional part of `ifBlock`. `declarations` and `instructions`
-- are empty lists where a block has none of them.
mutual
  pub data Instruction : Type 0 where
    break_jump_context : Instruction
    return_jump_context : Option Tree → Instruction
    if_block_context : IfBlock → Instruction
    while_block_context do_while_block_context : Tree → Block → Instruction
    for_block_context : Tree → Tree → Tree → Block → Instruction
    expression_context : Tree → Instruction

  pub data IfBlock : Type 0 where
    if_block : Tree → Block → Else → IfBlock

  pub data Else : Type 0 where
    no_else : Else
    else_block : Block → Else
    else_if : IfBlock → Else

  pub data Block : Type 0 where
    block : Declarations → Instructions → Block

  pub data Declarations : Type 0 where
    no_declaration : Declarations
    declarations : Declaration → Declarations → Declarations

  pub data Instructions : Type 0 where
    no_instruction : Instructions
    instructions : Instruction → Instructions → Instructions

  -- `variable_definition_context` has the names without and those with a value.
  pub data Declaration : Type 0 where
    type_definition_context : String → String → Declaration
    function_definition_context : FunctionInner → Block → Declaration
    function_declaration_context : FunctionInner → Declaration
    array_declaration_context : ArrayInner → Declaration
    array_definition_context : ArrayInner → Option Trees → Declaration
    variable_declaration_context : String → List String → Declaration
    variable_definition_context : String → List String → List (String × Tree) → Declaration

-- `statement`, with the `;` that may stand alone.
pub data Statement : Type 0 where
  instruction_context : Instruction → Statement
  declaration_context : Declaration → Statement
  instruction_separator : Statement

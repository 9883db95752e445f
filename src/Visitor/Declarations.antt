-- ===== src/Visitor/Declarations.antt =====
-- ASTVisitor_Variables.cpp, ASTVisitor_Arrays.cpp, ASTVisitor_Functions.cpp, and the definition of a
-- type: the declarations, but for the body of a function.
use Prim.Native.Nat.{◌-◌}
use Prim.Native.String.{◌++◌ as ◌<>◌}
use caramel.Prelude.{
  ℕ, zero, suc, String, Bool, false, Option, none, some, List, [], ◌∷◌, ◌++◌, length, ltb,
  to_string, if◌then◌else◌,
}
use caramel.Prelude.Int.{pos}
use caramel.Symbols.{
  Node, Symbol, SymbolType, variable_symbol, array_symbol, FunctionParameterSignature, Details,
  array,
}
use caramel.Symbols
use caramel.Table.{SymbolTable, root, child, modify}
use caramel.Table.Errors.{Result, ok, fatal}
use caramel.Table.Variables.{under, add_variable_declaration, add_variable_definition}
use caramel.Table.Arrays.{add_array_declaration, add_array_definition}
use caramel.Table.Functions.{add_function_declaration, add_function_parameter}
use caramel.Table.TypeNames.{add_type}
use caramel.Parse.{Tree, Trees, no_tree, trees, FunctionArgument, FunctionInner, ArrayInner}
use caramel.Syntax.{
  Expression, constant, Expressions, no_expression, expressions, Statement, variable_definition,
  array_definition, declaration, Function,
}
use caramel.Visitor.{
  Visit, ◌>>=◌, ◌>>◌, pure, stop, new_node, last_node, on_table, visit_type_parameter, deref,
}
use caramel.Visitor.Expressions.{stoll, visit_expression}

-- A `Statement::Ptr` that a visit returns: a definition of a function, or another statement.
pub data Item : Type 0 where
  statement : Statement → Item
  function : Function → Item

unfoldable pub visit_type_definition : String → String → Visit (List Item)
visit_type_definition primary alias = do
  primary_symbol ← visit_type_parameter primary
  alias_symbol ← visit_type_parameter alias
  a ← deref alias_symbol
  node ← new_node
  p ← deref primary_symbol
  on_table (add_type a.name p.type node)
  pure (statement declaration ∷ [])

unfoldable pub declare_variables : Option Symbol → List String → Visit (List Item)
declare_variables type [] = pure []
declare_variables type (name ∷ names) = do
  t ← deref type
  node ← new_node
  on_table (add_variable_declaration t.type name node)
  rest ← declare_variables type names
  pure (statement declaration ∷ rest)

unfoldable pub visit_variable_declaration : String → List String → Visit (List Item)
visit_variable_declaration type names = do t ← visit_type_parameter type; declare_variables t names

-- A definition with its value; the declaration of its type is read for every name. The nodes of the names
-- before one that throws are destroyed with it: `handled` does this to the state.
unfoldable pub define_variable : Option Symbol → String → Option Expression → Visit Item
define_variable type name value = do
  node ← new_node
  t ← deref type
  s ← on_table (add_variable_definition t.type name node)
  pure (statement (variable_definition s.name s.type value))

unfoldable pub define_variables : Option Symbol → List String → Visit (List Item)
define_variables type [] = pure []
define_variables type (name ∷ names) = do
  first ← define_variable type name none
  rest ← define_variables type names
  pure (first ∷ rest)

unfoldable pub define_assigned : Bool → Option Symbol → List (String × Tree) → Visit (List Item)
define_assigned left_first type [] = pure []
define_assigned left_first type ((name, value) ∷ rest) = do
  e ← visit_expression left_first value
  first ← define_variable type name (some e)
  others ← define_assigned left_first type rest
  pure (first ∷ others)

unfoldable pub visit_variable_definition :
    Bool → String → List String → List (String × Tree) → Visit (List Item)
visit_variable_definition left_first type names assigned = do
  t ← visit_type_parameter type
  items ← define_variables t names
  others ← define_assigned left_first t assigned
  pure (items ++ others)

-- `visitPositiveConstant` of the size.
unfoldable pub visit_size : Option ℕ → Visit (Option ℕ)
visit_size none = pure none
visit_size (some n) = do deref (stoll false n); new_node; pure (some n)

unfoldable pub visit_array_declaration : ArrayInner → Visit (List Item)
visit_array_declaration inner = do
  type ← visit_type_parameter inner.type
  size ← visit_size inner.size
  node ← new_node
  t ← deref type
  on_table (add_array_declaration t.type inner.name size node)
  pure (statement declaration ∷ [])

-- The elements with their nodes.
abbrev pub Content : Type 0
Content = Expressions × List Node

unfoldable pub visit_array_block : Bool → Trees → Visit Content
visit_array_block left_first no_tree = pure (no_expression, [])
visit_array_block left_first (trees t ts) = do
  e ← visit_expression left_first t
  node ← last_node
  (es, nodes) ← visit_array_block left_first ts
  pure (expressions e es, node ∷ nodes)

-- The elements of a block, where there is one. The exception for too many elements is not derived from
-- `SemanticError`.
unfoldable pub visit_content : Bool → Option ℕ → Option Trees → Visit Content
visit_content left_first size none = pure (no_expression, [])
visit_content left_first none (some ts) = visit_array_block left_first ts
visit_content left_first (some size) (some ts) = do
  (es, nodes) ← visit_array_block left_first ts
  if ltb size (length nodes) then stop else pure (es, nodes)

-- `n` default constants.
unfoldable pub default_constants : ℕ → Visit Content
default_constants zero = pure (no_expression, [])
default_constants (suc n) = do
  node ← new_node
  (es, nodes) ← default_constants n
  pure (expressions (constant (pos 0)) es, node ∷ nodes)

unfoldable pub append_expressions : Expressions → Expressions → Expressions
append_expressions no_expression fs = fs
append_expressions (expressions e es) fs = expressions e (append_expressions es fs)

abbrev pub missing : Option ℕ → ℕ → ℕ
missing none n = 0
missing (some size) n = size - n

-- What the lowering reads of the symbol of an array: its size, 0 where it has none, and its content.
abbrev pub size_of : Details → ℕ
size_of (array (some size) content) = size
size_of _ = 0

abbrev pub content_of : Details → Expressions → Option Expressions
content_of (array size (some content)) es = some es
content_of _ es = none

unfoldable pub visit_array_definition : Bool → ArrayInner → Option Trees → Visit (List Item)
visit_array_definition left_first inner elements = do
  type ← visit_type_parameter inner.type
  size ← visit_size inner.size
  (es, nodes) ← visit_content left_first size elements
  (zeros, zero_nodes) ← default_constants (missing size (length nodes))
  node ← new_node
  t ← deref type
  s ← on_table (add_array_definition t.type inner.name (nodes ++ zero_nodes) node)
  pure (
      statement (
        array_definition s.name s.type (size_of s.details)
          (content_of s.details (append_expressions es zeros)))
      ∷ [])

unnamed_argument : FunctionArgument → String
unnamed_argument a =
    "__unnamed_argument_" <> (to_string a.line <> ("_" <> (to_string a.column <> "__")))

abbrev argument_name : FunctionArgument → Option String → String
argument_name a none = unnamed_argument a
argument_name a (some name) = name

unfoldable pub visit_function_argument : FunctionArgument → Visit FunctionParameterSignature
unfolding unnamed_argument
visit_function_argument a = do
  type ← visit_type_parameter a.type
  t ← deref type
  pure (record {
    name = argument_name a a.name;
    primary_type = t.type;
    symbol_type = if a.is_array then array_symbol else variable_symbol;
  })

unfoldable pub visit_function_arguments :
    List FunctionArgument → Visit (List FunctionParameterSignature)
visit_function_arguments [] = pure []
visit_function_arguments (a ∷ rest) = do
  p ← visit_function_argument a
  ps ← visit_function_arguments rest
  pure (p ∷ ps)

-- An operation on the table of the root context.
unfoldable pub at_root :
    {A : Type 0} → (SymbolTable → Result (A × SymbolTable)) → SymbolTable → Result (A × SymbolTable)
at_root operation (root m) = operation (root m)
at_root operation (child m parent) = under (child m) (at_root operation parent)

unfoldable pub visit_function_declaration : FunctionInner → Visit (List Item)
visit_function_declaration inner = do
  type ← visit_type_parameter inner.type
  t ← deref type
  parameters ← visit_function_arguments inner.arguments
  node ← new_node
  on_table (at_root (add_function_declaration t.type inner.name parameters node false))
  pure (statement declaration ∷ [])

-- An operation on the table of the parent context.
unfoldable pub at_parent :
    {A : Type 0} → (SymbolTable → Result (A × SymbolTable)) → SymbolTable → Result (A × SymbolTable)
at_parent operation (root m) = fatal
at_parent operation (child m parent) = under (child m) (operation parent)

unfoldable pub add_parameters : List FunctionParameterSignature → Visit (List Symbol)
add_parameters [] = pure []
add_parameters (p ∷ ps) = do
  s ← on_table (add_function_parameter p.name p.primary_type p.symbol_type)
  rest ← add_parameters ps
  pure (s ∷ rest)

-- `addDefinition` on the symbol of each parameter, which the table of the function holds.
unfoldable pub define_parameters : Node → List Symbol → Visit (Unit {0})
define_parameters node [] = pure tt
define_parameters node (s ∷ rest) = do
  on_table (λ t. ok (tt, modify s.name (Symbols.add_definition (some node)) t))
  define_parameters node rest

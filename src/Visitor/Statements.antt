-- ===== src/Visitor/Statements.antt =====
-- ASTVisitor.cpp, ASTVisitor_ControlBlock.cpp, and `visitFunctionDefinition`: the statements, with the
-- handlers of the errors.
use caramel.Prelude.{Bool, true, false, Option, none, some, List, [], ◌∷◌, ◌++◌, if◌then◌else◌}
use caramel.Table.{SymbolTable, root, child}
use caramel.Table.Functions.{add_function_definition, parameters_of}
use caramel.Parse.{
  Tree, Instruction, break_jump_context, return_jump_context, if_block_context, while_block_context,
  do_while_block_context, for_block_context, expression_context, IfBlock, if_block, Else, no_else,
  else_block, else_if, Block, block, Declarations, no_declaration, declarations, Instructions,
  no_instruction, instructions, Declaration, type_definition_context, function_definition_context,
  function_declaration_context, array_declaration_context, array_definition_context,
  variable_declaration_context, variable_definition_context, FunctionInner, instruction_context,
  declaration_context, instruction_separator,
}
use caramel.Parse
use caramel.Syntax.{
  Expression, Statement, expression, return_statement, break_statement, if_statement,
  while_statement, do_while_statement, for_statement, declaration, Statements, no_statement,
  statements,
}
use caramel.Visitor.{
  Visit, ◌>>=◌, ◌>>◌, pure, stop, new_node, last_node, keep, on_table, visit_type_parameter, deref,
  catch, in_context,
}
use caramel.Visitor.Expressions.{visit_expression}
use caramel.Visitor.Declarations.{
  Item, statement, function, visit_type_definition, visit_variable_declaration,
  visit_variable_definition, visit_array_declaration, visit_array_definition,
  visit_function_arguments, visit_function_declaration, at_parent, add_parameters,
  define_parameters,
}

-- The body of a function or of a control block. A function can only be defined in a control block of
-- the root context, which is not lowered.
abbrev pub as_statement : Item → Statement
as_statement (statement s) = s
as_statement (function f) = declaration

unfoldable pub statements_of : List Item → Statements
statements_of [] = no_statement
statements_of (i ∷ is) = statements (as_statement i) (statements_of is)

abbrev pub is_root : SymbolTable → Bool
is_root (root m) = true
is_root (child m parent) = false

unfoldable pub visit_function_body : FunctionInner → Visit (List Item) → Visit (List Item)
visit_function_body inner visit_body = do
  context ← new_node
  type ← visit_type_parameter inner.type
  t ← deref type
  parameters ← visit_function_arguments inner.arguments
  symbols ← add_parameters parameters
  node ← new_node
  f ← on_table (at_parent (add_function_definition context t.type inner.name symbols node false))
  define_parameters node symbols
  first ← last_node
  items ← visit_body
  keep first
  pure (
      function (record { name = f.name; parameters = parameters_of f; body = statements_of items })
      ∷ [])

-- A function is only defined in the root context.
unfoldable pub visit_function_definition : FunctionInner → Visit (List Item) → Visit (List Item)
visit_function_definition inner visit_body s =
    in_context (if is_root s.table then visit_function_body inner visit_body else stop) s

unfoldable pub visit_return_jump : Bool → Option Tree → Visit Statement
visit_return_jump left_first none = do new_node; pure (return_statement none)
visit_return_jump left_first (some t) = do
  e ← visit_expression left_first t
  new_node
  pure (return_statement (some e))

-- A control block whose parts are visited in the order of its constructor's arguments.
unfoldable pub visit_loop :
    (Expression → Statements → Statement) → Visit Expression → Visit (List Item) → Visit Statement
visit_loop loop visit_condition visit_body = do
  condition ← visit_condition
  body ← visit_body
  new_node
  pure (loop condition (statements_of body))

unfoldable pub visit_for_block :
    Visit Expression → Visit Expression → Visit Expression → Visit (List Item) → Visit Statement
visit_for_block visit_begin visit_end visit_step visit_body = do
  begin ← visit_begin
  end ← visit_end
  step ← visit_step
  body ← visit_body
  new_node
  pure (for_statement begin end step (statements_of body))

unfoldable pub visit_if_parts :
    Visit Expression → Visit (List Item) → Visit (List Item) → Visit Statement
visit_if_parts visit_condition visit_then visit_else = do
  condition ← visit_condition
  positive ← visit_then
  negative ← visit_else
  new_node
  pure (if_statement condition (statements_of positive) (statements_of negative))

unfoldable pub one_item : Visit Statement → Visit (List Item)
one_item v = do s ← v; pure (statement s ∷ [])

-- What two lists of statements are visited to, one after the other.
unfoldable pub both : Visit (List Item) → Visit (List Item) → Visit (List Item)
both v w = do items ← v; others ← w; pure (items ++ others)

module _ (left_first : Bool) where
  unfoldable mutual
    pub visit_instruction : Instruction → Visit Statement
    visit_instruction break_jump_context = new_node >> pure break_statement
    visit_instruction (return_jump_context t) = visit_return_jump left_first t
    visit_instruction (if_block_context b) = visit_if_block b
    visit_instruction (while_block_context t b) =
        visit_loop while_statement (visit_expression left_first t) (visit_block b)
    visit_instruction (do_while_block_context t b) =
        visit_loop do_while_statement (visit_expression left_first t) (visit_block b)
    visit_instruction (for_block_context begin end step b) =
        visit_for_block (visit_expression left_first begin) (visit_expression left_first end)
          (visit_expression left_first step) (visit_block b)
    visit_instruction (expression_context t) = do
      e ← visit_expression left_first t
      pure (expression e)

    pub visit_if_block : IfBlock → Visit Statement
    visit_if_block (if_block t b e) =
        visit_if_parts (visit_expression left_first t) (visit_block b) (visit_else e)

    pub visit_else : Else → Visit (List Item)
    visit_else no_else = pure []
    visit_else (else_block b) = visit_block b
    visit_else (else_if b) = one_item (visit_if_block b)

    pub visit_block : Block → Visit (List Item)
    visit_block (block ds is) =
        both (catch [] (visit_declarations ds)) (catch [] (visit_instructions is))

    pub visit_declarations : Declarations → Visit (List Item)
    visit_declarations no_declaration = pure []
    visit_declarations (declarations d ds) =
        both (catch [] (visit_declaration d)) (visit_declarations ds)

    pub visit_instructions : Instructions → Visit (List Item)
    visit_instructions no_instruction = pure []
    visit_instructions (instructions i is) =
        both (one_item (visit_instruction i)) (visit_instructions is)

    pub visit_declaration : Declaration → Visit (List Item)
    visit_declaration (type_definition_context primary alias) = visit_type_definition primary alias
    visit_declaration (function_definition_context inner b) =
        visit_function_definition inner (visit_block b)
    visit_declaration (function_declaration_context inner) = visit_function_declaration inner
    visit_declaration (array_declaration_context inner) = visit_array_declaration inner
    visit_declaration (array_definition_context inner elements) =
        visit_array_definition left_first inner elements
    visit_declaration (variable_declaration_context type names) =
        visit_variable_declaration type names
    visit_declaration (variable_definition_context type names assigned) =
        visit_variable_definition left_first type names assigned

  unfoldable pub visit_statement : Parse.Statement → Visit (List Item)
  visit_statement (instruction_context i) = one_item (visit_instruction i)
  visit_statement (declaration_context d) = visit_declaration d
  visit_statement instruction_separator = pure []

  unfoldable pub visit_statements : List Parse.Statement → Visit (List Item)
  visit_statements [] = pure []
  visit_statements (s ∷ ss) = both (catch [] (visit_statement s)) (visit_statements ss)

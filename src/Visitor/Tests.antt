-- ===== src/Visitor/Tests.antt =====
-- Programs that the visitor accepts or refuses.
use caramel.Prelude.{◌++◌, ℕ, String, true, false, none, some, List, [], ◌∷◌, ◌≡◌, ◌≢◌, inl, refl}
use caramel.Parse.{
  type_definition_context, additive_expression, comparison, Tree, single_child, assignment_context,
  binary_context, prefix_unary_context, postfix_unary_context, lvalue_context, number_context,
  identifier_context, return_jump_context, while_block_context, expression_context, block,
  no_declaration, declarations, no_instruction, instructions, function_definition_context,
  variable_definition_context, instruction_context, declaration_context, Statement,
}
use caramel.Prelude.Int.{pos}
use caramel.Syntax.{
  Expression, constant, identifier, binary, plus, lower_than, assignment, statements, no_statement,
  variable_definition, while_statement, expression, return_statement,
}
use caramel.Visitor.Declarations.{visit_type_definition, Item, function}
use caramel.Graph.{Graph}
use caramel.Graph.Extends.{IsValid}
use caramel.Table.Operations.{Reach, start, step, run, declare_type}
use caramel.Visitor.Conditions.{are_sound_statements, all_sized_arrays}
use caramel.Visitor.Depth.{depth, depth-visit_statement}
use caramel.Visitor.Typedefs.{visit_type_definition-refused}
use caramel.Visitor.Refused.{front_end-refuses}
use caramel.Table.Errors.{Result, ok}
use caramel.Visitor.Programs.{build-IsValid}
use caramel.Visitor.NoTypedefs.{front_end-type_definition}
use caramel.Visitor.{
  is_dead, State, Outcome, done, thrown, stopped, ◌>>=◌, is_semantic, on_table, catch, in_context,
  visit_type_parameter,
}
use caramel.Visitor.Expressions.{
  find_binary_op, in_order, stoll, visit_number_constant, visit_identifier, visit_binary,
  visit_prefix, apply_postfix, visit_expression, visit_lvalue,
}
use caramel.Visitor.Declarations.{
  define_variable, define_variables, define_assigned, visit_variable_definition,
  visit_function_argument, visit_function_arguments, at_parent, add_parameters, define_parameters,
}
use caramel.Visitor.Statements.{
  statements_of, visit_function_body, visit_function_definition, visit_return_jump, visit_loop,
  one_item, both, visit_instruction, visit_block, visit_declarations, visit_instructions,
  visit_declaration, visit_statement, visit_statements,
}
use caramel.Visitor.Root.{
  start_state, build, add_primary_types, declare_prelude, visit_r, front_end, functions_of,
}
use caramel.Table.{
  expire, SymbolTable, root, symbol_map, put, has_symbol, get_symbol, is_declared, is_defined,
  modify,
}
use caramel.Table.Variables.{require, has_type, here, add_variable_definition, add_variable_usage}
use caramel.Table.Functions.{
  match_parameters, add_function_declaration, define_function, add_function_definition,
  parameter_symbol, add_function_parameter,
}
use caramel.Table.TypeNames.{add_primary_type}
use caramel.Symbols
use caramel.Symbols.{
  Symbol, variable_symbol, function_symbol, new_variable, new_array_of, new_function,
  add_declaration, add_definition, add_usage, set_context, set_parameters,
}
use caramel.Types.{int32_t, identifier as type_identifier, equals}
use caramel.Syntax.Tokens.{bound, get_op_for_token}
use caramel.Prelude.{lookup, insert}

abbrev pub name : String → Tree
name x =
    prefix_unary_context none (postfix_unary_context none (lvalue_context (identifier_context x)))

abbrev pub number : ℕ → Tree
number n = prefix_unary_context none (postfix_unary_context none (number_context false n))

-- int32_t f(int32_t n) { int32_t x = 3; while (x < n) { x = x + 1; } return x; }
abbrev example_function : Statement
example_function = declaration_context (
    function_definition_context
      (record {
        type = "int32_t";
        name = "f";
        arguments =
            record { type = "int32_t"; name = some "n"; is_array = false; line = 1; column = 14 }
            ∷ [];
      })
      (block
        (declarations (variable_definition_context "int32_t" [] (("x", number 3) ∷ []))
          no_declaration)
        (instructions
          (while_block_context (single_child (binary_context comparison "<" (name "x") (name "n")))
            (block no_declaration (
              instructions
                (expression_context (
                  assignment_context (identifier_context "x") "="
                    (binary_context additive_expression "+" (name "x") (number 1))))
                no_instruction)))
          (instructions (return_jump_context (some (name "x"))) no_instruction))))

abbrev example : List Statement
example = example_function ∷ []

abbrev x_plus_one : Expression
x_plus_one = binary plus (identifier "x" int32_t none) (constant (pos 1))

abbrev example_items : List Item
example_items =
    function (record {
      name = "f";
      parameters =
          record { name = "n"; primary_type = int32_t; symbol_type = variable_symbol } ∷ [];
      body = statements (variable_definition "x" int32_t (some (constant (pos 3)))) (
          statements
            (while_statement
              (binary lower_than (identifier "x" int32_t none) (identifier "n" int32_t none))
              (statements (expression (binary assignment (identifier "x" int32_t none) x_plus_one))
                no_statement))
            (statements (return_statement (some (identifier "x" int32_t none))) no_statement));
    })
    ∷ []

example-accepted : front_end true example ≡ some example_items
unfolding ◌>>=◌ is_semantic on_table catch in_context visit_type_parameter find_binary_op in_order
    stoll visit_number_constant visit_identifier visit_binary visit_prefix apply_postfix
    visit_expression visit_lvalue define_variable define_variables define_assigned
    visit_variable_definition visit_function_argument visit_function_arguments at_parent
    add_parameters define_parameters statements_of visit_function_body visit_function_definition
    visit_return_jump visit_loop one_item both visit_instruction visit_block visit_declarations
    visit_instructions visit_declaration visit_statement visit_statements add_primary_types
    declare_prelude visit_r front_end functions_of symbol_map put has_symbol get_symbol is_declared
    is_defined modify require has_type here add_variable_definition add_variable_usage
    match_parameters add_function_declaration define_function add_function_definition
    parameter_symbol add_function_parameter add_primary_type add_declaration add_definition
    add_usage set_context set_parameters type_identifier equals bound get_op_for_token lookup insert
    Symbols.is_defined
example-accepted = refl

example_sound : are_sound_statements example ≡ true
unfolding are_sound_statements
example_sound = refl

example_sized : all_sized_arrays (functions_of example_items) ≡ true
unfolding all_sized_arrays functions_of
example_sized = refl

build-IsValid_example : (g : Graph) × (build true example ≡ some g) × IsValid g
build-IsValid_example =
    build-IsValid true example example_items example_sound example-accepted example_sized

abbrev table_or_root : Result SymbolTable → SymbolTable
table_or_root (ok t) = t
table_or_root _ = root []

-- The table with `int32_t`.
abbrev typed : State
typed = record start_state {
  table = table_or_root (run (declare_type int32_t "int32_t") (root []));
}

typed-Reach : Reach typed.table
unfolding run add_primary_type is_declared is_defined lookup put insert Symbols.add_declaration
    Symbols.add_definition
typed-Reach = step start (declare_type int32_t "int32_t") refl

visit_type_definition-refused_example :
    visit_type_definition "int32_t" "number" typed ≢ done [] typed
visit_type_definition-refused_example =
    visit_type_definition-refused "int32_t" "number" typed typed [] typed-Reach

abbrev state_of : Outcome (List Item) → State
state_of (done items s) = s
state_of (thrown s) = s
state_of stopped = start_state

-- The prelude, and the use of a name that is not defined.
abbrev prelude : State
prelude = state_of (visit_r true [] start_state)

abbrev undefined_use : Statement
undefined_use = instruction_context (expression_context (name "x"))

prelude-visited : visit_r true [] start_state ≡ done [] prelude
unfolding ◌>>=◌ on_table catch visit_r add_primary_types declare_prelude visit_statements
    add_primary_type add_function_declaration is_declared is_defined put lookup insert
    Symbols.is_declared Symbols.is_defined add_declaration add_definition set_parameters
    type_identifier
prelude-visited = refl

undefined_use-fails :
    visit_statement true undefined_use prelude
    ≡ thrown (state_of (visit_statement true undefined_use prelude))
unfolding ◌>>=◌ on_table catch visit_r add_primary_types declare_prelude visit_statements
    add_primary_type add_function_declaration is_declared is_defined put lookup insert
    Symbols.is_declared Symbols.is_defined add_declaration add_definition set_parameters
    type_identifier is_semantic visit_statement visit_instruction one_item visit_expression
    visit_prefix apply_postfix visit_lvalue visit_identifier add_variable_usage
undefined_use-fails = refl

front_end-refuses_example : front_end true (undefined_use ∷ example) ≡ none
front_end-refuses_example =
    front_end-refuses true [] example undefined_use [] prelude prelude-visited
      (inl (state_of (visit_statement true undefined_use prelude), undefined_use-fails))

depth-visit_statement_example :
    ((items : List Item) (s' : State)
      → visit_statement true example_function prelude ≡ done items s'
      → depth s'.table ≡ depth prelude.table)
    × ((s' : State)
        → visit_statement true example_function prelude ≡ thrown s'
        → depth s'.table ≡ depth prelude.table)
depth-visit_statement_example = depth-visit_statement true example_function prelude

front_end-type_definition_example :
    front_end true
      (example ++ declaration_context (type_definition_context "int32_t" "number") ∷ [])
    ≡ none
front_end-type_definition_example = front_end-type_definition true example [] "int32_t" "number"

-- int32_t a = 1, b = c; with no c: the definition of a is destroyed with that of b.
abbrev aborted : Statement
aborted =
    declaration_context
      (variable_definition_context "int32_t" [] (("a", number 1) ∷ ("b", name "c") ∷ []))

abbrev after_aborted : State
after_aborted = state_of (visit_statements true (aborted ∷ []) prelude)

aborted_test :
    (is_defined "a" after_aborted.table ≡ false) × (has_symbol "a" after_aborted.table ≡ true)
unfolding expire is_dead Symbols.expire ◌>>=◌ is_semantic on_table catch in_context
    visit_type_parameter find_binary_op in_order stoll visit_number_constant visit_identifier
    visit_binary visit_prefix apply_postfix visit_expression visit_lvalue define_variable
    define_variables define_assigned visit_variable_definition visit_function_argument
    visit_function_arguments at_parent add_parameters define_parameters statements_of
    visit_function_body visit_function_definition visit_return_jump visit_loop one_item both
    visit_instruction visit_block visit_declarations visit_instructions visit_declaration
    visit_statement visit_statements add_primary_types declare_prelude visit_r front_end
    functions_of symbol_map put has_symbol get_symbol is_declared is_defined modify require has_type
    here add_variable_definition add_variable_usage match_parameters add_function_declaration
    define_function add_function_definition parameter_symbol add_function_parameter add_primary_type
    add_declaration add_definition add_usage set_context set_parameters type_identifier equals bound
    get_op_for_token lookup insert Symbols.is_defined
aborted_test = (refl, refl)

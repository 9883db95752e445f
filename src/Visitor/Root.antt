-- ===== src/Visitor/Root.antt =====
-- `visitR`, src/FrontEnd.cpp and src/BackEnd.cpp: from the parse tree of a program to its syntax tree
-- and its control-flow graph.
use caramel.Prelude.{
  ◌==◌, String, Bool, true, false, Option, none, some, List, [], ◌∷◌, if◌then◌else◌,
}
use caramel.Types.{PrimaryType, void_t, char, int8_t, int16_t, int32_t, int64_t, identifier}
use caramel.Symbols.{variable_symbol, FunctionParameterSignature}
use caramel.Table.{SymbolTable, root}
use caramel.Table.Errors.{Result, ok, err, fatal}
use caramel.Table.Functions.{add_function_declaration}
use caramel.Table.TypeNames.{add_primary_type}
use caramel.Parse
use caramel.Graph.{Graph}
use caramel.Syntax.{Function, control_flow_graph}
use caramel.Visitor.{
  State, Outcome, done, thrown, stopped, Visit, ◌>>=◌, ◌>>◌, pure, new_node, on_table, catch,
}
use caramel.Visitor.Declarations.{Item, statement, function}
use caramel.Visitor.Statements.{visit_statements}

abbrev pub no_result : Result SymbolTable → Result (Unit {0} × SymbolTable)
no_result (ok t) = ok (tt, t)
no_result (err e) = err e
no_result fatal = fatal

unfoldable pub add_primary_types : List PrimaryType → Visit (Unit {0})
add_primary_types [] = pure tt
add_primary_types (type ∷ rest) =
    on_table (λ t. no_result (add_primary_type type (identifier type) t)) >> add_primary_types rest

abbrev pub PreludeFunction : Type 0
PreludeFunction = PrimaryType × String × List FunctionParameterSignature × Bool

abbrev int32_parameter : String → List FunctionParameterSignature
int32_parameter name =
    record { name = name; primary_type = int32_t; symbol_type = variable_symbol } ∷ []

abbrev pub primary_types : List PrimaryType
primary_types = void_t ∷ char ∷ int8_t ∷ int16_t ∷ int32_t ∷ int64_t ∷ []

abbrev pub prelude_functions : List PreludeFunction
prelude_functions =
    (void_t, "printf", [], true)
    ∷ (void_t, "putchar", int32_parameter "c", false)
    ∷ (int32_t, "getchar", [], false)
    ∷ (void_t, "exit", int32_parameter "code", false)
    ∷ []

unfoldable pub declare_prelude : List PreludeFunction → Visit (Unit {0})
declare_prelude [] = pure tt
declare_prelude ((type, name, parameters, variadic) ∷ rest) = do
  node ← new_node
  on_table (add_function_declaration type name parameters node variadic)
  declare_prelude rest

abbrev pub start_state : State
start_state = record { table = root []; nodes = 0; error_count = 0; kept = [] }

unfoldable pub visit_r : Bool → List Parse.Statement → Visit (List Item)
visit_r left_first ss = do
  new_node
  add_primary_types primary_types
  declare_prelude prelude_functions
  catch [] (visit_statements left_first ss)

-- `none` is an `exit`, which any semantic error leads to.
abbrev pub accepted : Outcome (List Item) → Option (List Item)
accepted (done items s) = if s.error_count == 0 then some items else none
accepted (thrown s) = none
accepted stopped = none

unfoldable pub front_end : Bool → List Parse.Statement → Option (List Item)
front_end left_first ss = accepted (visit_r left_first ss start_state)

-- The definitions of functions among the statements of the root context.
unfoldable pub functions_of : List Item → List Function
functions_of [] = []
functions_of (function f ∷ is) = f ∷ functions_of is
functions_of (statement s ∷ is) = functions_of is

abbrev graph_of : Option (List Item) → Option Graph
graph_of none = none
graph_of (some items) = control_flow_graph (functions_of items)

unfoldable pub build : Bool → List Parse.Statement → Option Graph
build left_first ss = graph_of (front_end left_first ss)

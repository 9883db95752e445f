-- ===== src/Table/Operations.antt =====
-- SymbolTable.cpp and the scopes of Context.cpp: the operations as the steps of one relation, and
-- what every chain that they build satisfies.
pub mod Change
pub mod Steps
pub mod Reached
use caramel.Prelude.{ℕ, String, Bool, Option, none, some, List, [], ◌≡◌}
use caramel.Types.{PrimaryType}
use caramel.Symbols.{Node, Symbol, SymbolType, FunctionParameterSignature}
use caramel.Symbols
use caramel.Table.{SymbolMap, SymbolTable, root, child, modify, expire}
use caramel.Table.Errors.{Result, ok, ◌>>=◌}
use caramel.Table.Variables.{
  Added, add_variable_declaration, add_variable_definition, add_variable_usage,
}
use caramel.Table.Arrays.{add_array_declaration, add_array_definition, add_array_access}
use caramel.Table.Functions.{
  add_function_declaration, add_function_definition, add_function_parameter, add_function_call,
}
use caramel.Table.TypeNames.{add_primary_type, add_type}

-- One constructor for each public operation that changes a table. `define_parameter` is the
-- `addDefinition` by which the visitor of a function definition defines each parameter's symbol.
pub data Operation : Type 0 where
  declare_variable define_variable : PrimaryType → String → Node → Operation
  use_variable : String → Node → Operation
  declare_array : PrimaryType → String → Option ℕ → Node → Operation
  define_array : PrimaryType → String → List Node → Node → Operation
  access_array : String → Node → Operation
  declare_function :
      PrimaryType → String → List FunctionParameterSignature → Node → Bool → Operation
  define_function : Node → PrimaryType → String → List Symbol → Node → Bool → Operation
  add_parameter : String → PrimaryType → SymbolType → Operation
  define_parameter : String → Node → Operation
  call_function : String → List PrimaryType → Node → Operation
  declare_type : PrimaryType → String → Operation
  alias_type : String → PrimaryType → Node → Operation

abbrev pub table_of : Result Added → Result SymbolTable
table_of r = do (s, t) ← r; ok t

unfoldable pub run : Operation → SymbolTable → Result SymbolTable
run (declare_variable type name node) t = table_of (add_variable_declaration type name node t)
run (define_variable type name node) t = table_of (add_variable_definition type name node t)
run (use_variable name node) t = table_of (add_variable_usage name node t)
run (declare_array type name size node) t = table_of (add_array_declaration type name size node t)
run (define_array type name content node) t =
    table_of (add_array_definition type name content node t)
run (access_array name node) t = table_of (add_array_access name node t)
run (declare_function type name parameters node variadic) t =
    table_of (add_function_declaration type name parameters node variadic t)
run (define_function context type name parameters node variadic) t =
    table_of (add_function_definition context type name parameters node variadic t)
run (add_parameter name type kind) t = table_of (add_function_parameter name type kind t)
run (define_parameter name node) t = ok (modify name (Symbols.add_definition (some node)) t)
run (call_function name arguments node) t = table_of (add_function_call name arguments node t)
run (declare_type type name) t = add_primary_type type name t
run (alias_type alias type node) t = table_of (add_type alias type node t)

-- `getParentTable`
abbrev pub parent_of : SymbolTable → Option SymbolTable
parent_of (root m) = none
parent_of (child m parent) = some parent

-- An operation on the table of a scope around, which leaves those of the scopes inside it.
pub data Within (op : Operation) : SymbolTable → SymbolTable → Type 0 where
  here : {t u : SymbolTable} → run op t ≡ ok u → Within op t u
  above : {m : SymbolMap} {t u : SymbolTable} → Within op t u → Within op (child m t) (child m u)

-- The chains that a run can reach from an empty root table. `enter` is the constructor of
-- `Context` with a parent, whose table is empty, and `leave` goes back to the parent; `destroy` is the
-- destruction of nodes that an exception leaves with no owner.
pub data Reach : SymbolTable → Type 0 where
  start : Reach (root [])
  step : {t u : SymbolTable} → Reach t → (op : Operation) → run op t ≡ ok u → Reach u
  around : {t u : SymbolTable} → Reach t → (op : Operation) → Within op t u → Reach u
  enter : {t : SymbolTable} → Reach t → Reach (child [] t)
  destroy : {t : SymbolTable} → Reach t → (dead : Node → Bool) → Reach (expire dead t)
  leave : {t u : SymbolTable} → Reach u → (parent_of u ≡ some t) → Reach t

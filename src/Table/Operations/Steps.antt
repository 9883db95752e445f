-- ===== src/Table/Operations/Steps.antt =====
-- SymbolTable.cpp: each operation that passes makes one change that keeps the chain well formed.
use caramel.Prelude.{
  [], length, ℕ, String, Bool, Option, none, some, List, ◌≡◌, arith, Bool-cases, inl, inr, map,
}
use caramel.Types.{PrimaryType}
use caramel.Symbols.{
  function_symbol, variable_symbol, type_symbol, array_symbol, signature_of, Node, Symbol, Details,
  variable, array, function, type_alias, SymbolType, FunctionParameterSignature, set_parameters,
  set_context, new_symbol, new_variable, new_array_of, new_function, new_type,
}
use caramel.Symbols
use caramel.Table.{SymbolTable, is_declared}
use caramel.Table.Errors.{Result, ok, err, fatal}
use caramel.Table.Variables.{
  Added, add_variable_declaration, add_variable_definition, add_variable_usage,
}
use caramel.Table.Usage.{add_variable_usage-modify}
use caramel.Table.Access.{add_array_access-modify}
use caramel.Table.Arrays.{add_array_declaration, add_array_definition, add_array_access}
use caramel.Table.Functions.{
  add_function_declaration, add_function_definition, add_function_parameter, add_function_call,
  define_function as define_symbol,
}
use caramel.Table.TypeNames.{add_primary_type, add_type}
use caramel.Table.Validity.{IsFiled}
use caramel.Table.Operations.{
  declare_variable, define_variable, use_variable, declare_array, define_array, access_array,
  declare_function, define_function, add_parameter, call_function, declare_type, alias_type, run,
  table_of,
}
use caramel.Table.Operations.Change.{
  add_declaration-IsFiled, add_definition-IsFiled, add_usage-IsFiled, set_context-IsFiled,
  set_parameters-IsFiled, new_symbol-IsFiled, new_type-IsFiled, Change, written, changed,
}

pub variable_declaration-Change :
    (type : PrimaryType) (name : String) (node : Node) (t : SymbolTable) {u : SymbolTable}
    → run (declare_variable type name node) t ≡ ok u
    → Change t u
unfolding run add_variable_declaration
variable_declaration-Change type name node t h =
    written name (Symbols.add_declaration (some node) (new_symbol name type variable))
      (add_declaration-IsFiled node name _ (new_symbol-IsFiled name type variable tt))
      (ground arith)

pub variable_definition-Change :
    (type : PrimaryType) (name : String) (node : Node) (t : SymbolTable) {u : SymbolTable}
    → run (define_variable type name node) t ≡ ok u
    → Change t u
unfolding run add_variable_definition
variable_definition-Change type name node t h = elim (Bool-cases (is_declared name t)) [
  | inl d ↦
      changed name (Symbols.add_definition (some node)) (add_definition-IsFiled node) (ground arith)
  | inr u ↦
      written name (Symbols.add_definition (some node) (new_symbol name type variable))
        (add_definition-IsFiled node name _ (new_symbol-IsFiled name type variable tt))
        (ground arith)
]

pub array_declaration-Change :
    (type : PrimaryType) (name : String) (size : Option ℕ) (node : Node) (t : SymbolTable)
    {u : SymbolTable}
    → run (declare_array type name size node) t ≡ ok u
    → Change t u
unfolding run add_array_declaration
array_declaration-Change type name size node t h =
    written name (Symbols.add_declaration (some node) (new_symbol name type (array size none)))
      (add_declaration-IsFiled node name _ (new_symbol-IsFiled name type (array size none) tt))
      (ground arith)

pub array_definition-Change :
    (type : PrimaryType) (name : String) (content : List Node) (node : Node) (t : SymbolTable)
    {u : SymbolTable}
    → run (define_array type name content node) t ≡ ok u
    → Change t u
unfolding run add_array_definition
array_definition-Change type name content node t h = elim (Bool-cases (is_declared name t)) [
  | inl d ↦
      changed name (Symbols.add_definition (some node)) (add_definition-IsFiled node) (ground arith)
  | inr u ↦
      written name (Symbols.add_definition (some node) (new_array_of name type content))
        (add_definition-IsFiled node name _
          (new_symbol-IsFiled name type (array (some (length content)) (some content)) tt))
        (ground arith)
]

pub function_declaration-Change :
    (type : PrimaryType) (name : String) (ps : List FunctionParameterSignature) (node : Node)
    (variadic : Bool) (t : SymbolTable) {u : SymbolTable}
    → run (declare_function type name ps node variadic) t ≡ ok u
    → Change t u
unfolding run add_function_declaration
function_declaration-Change type name ps node variadic t h =
    elim (Bool-cases (is_declared name t)) [
      | inl d ↦
          changed name (Symbols.add_declaration (some node)) (add_declaration-IsFiled node)
            (ground arith)
      | inr u ↦
          written name
            (Symbols.add_declaration (some node)
              (set_parameters ps (new_function name type variadic)))
            (add_declaration-IsFiled node name _ (
              set_parameters-IsFiled ps name _
                (new_symbol-IsFiled name type (function none variadic []) tt)))
            (ground arith)
    ]

pub function_definition-Change :
    (context : Node) (type : PrimaryType) (name : String) (ps : List Symbol) (node : Node)
    (variadic : Bool) (t : SymbolTable) {u : SymbolTable}
    → run (define_function context type name ps node variadic) t ≡ ok u
    → Change t u
unfolding run add_function_definition define_symbol
function_definition-Change context type name ps node variadic t h =
    let signatures = map (λ (p : Symbol). signature_of p) ps in
    elim (Bool-cases (is_declared name t)) [
      | inl d ↦
          changed name (λ s. Symbols.add_definition (some node) (set_context context s))
            (λ k s filed. add_definition-IsFiled node k _ (set_context-IsFiled context k s filed))
            (ground arith)
      | inr u ↦
          written name
            (Symbols.add_definition (some node)
              (set_parameters signatures (set_context context (new_function name type variadic))))
            (add_definition-IsFiled node name _ (
              set_parameters-IsFiled signatures name _ (
                set_context-IsFiled context name _
                  (new_symbol-IsFiled name type (function none variadic []) tt))))
            (ground arith)
    ]

pub parameter-Change :
    (name : String) (type : PrimaryType) (kind : SymbolType) (t : SymbolTable) {u : SymbolTable}
    → run (add_parameter name type kind) t ≡ ok u
    → Change t u
unfolding run add_function_parameter
parameter-Change name type function_symbol t h = absurd (ground arith)
parameter-Change name type variable_symbol t h =
    written name (new_symbol name type variable) (new_symbol-IsFiled name type variable tt)
      (ground arith)
parameter-Change name type type_symbol t h = absurd (ground arith)
parameter-Change name type array_symbol t h =
    written name (new_symbol name type (array none none))
      (new_symbol-IsFiled name type (array none none) tt) (ground arith)

pub call-Change :
    (name : String) (arguments : List PrimaryType) (node : Node) (t : SymbolTable) {u : SymbolTable}
    → run (call_function name arguments node) t ≡ ok u
    → Change t u
unfolding run add_function_call
call-Change name arguments node t h =
    changed name (Symbols.add_usage node) (add_usage-IsFiled node) (ground arith)

primary_type-IsFiled :
    (name : String) (type : PrimaryType)
    → IsFiled name (Symbols.add_definition none (Symbols.add_declaration none (new_type name type)))
unfolding Symbols.add_definition Symbols.add_declaration Symbols.is_defined Symbols.is_declared
primary_type-IsFiled name type = ground arith

pub primary_type-Change :
    (type : PrimaryType) (name : String) (t : SymbolTable) {u : SymbolTable}
    → run (declare_type type name) t ≡ ok u
    → Change t u
unfolding run add_primary_type
primary_type-Change type name t h =
    written name (Symbols.add_definition none (Symbols.add_declaration none (new_type name type)))
      (primary_type-IsFiled name type) (ground arith)

pub alias-Change :
    (alias : String) (type : PrimaryType) (node : Node) (t : SymbolTable) {u : SymbolTable}
    → run (alias_type alias type node) t ≡ ok u
    → Change t u
unfolding run add_type
alias-Change alias type node t h =
    written alias (Symbols.add_definition (some node) (new_type alias type))
      (new_type-IsFiled (some node) alias type) (ground arith)

table_of-ok :
    (r : Result Added) {u : SymbolTable} → table_of r ≡ ok u → (s : Symbol) × (r ≡ ok (s, u))
table_of-ok (ok (s, t)) h = (s, ground arith)
table_of-ok (err e) h = absurd (cc)
table_of-ok fatal h = absurd (cc)

pub use-Change :
    (name : String) (node : Node) (t : SymbolTable) {u : SymbolTable}
    → run (use_variable name node) t ≡ ok u
    → Change t u
unfolding run
use-Change name node t h =
    let (s, e) = table_of-ok (add_variable_usage name node t) h in
    changed name (Symbols.add_usage node) (add_usage-IsFiled node)
      (add_variable_usage-modify name node t e)

pub access-Change :
    (name : String) (node : Node) (t : SymbolTable) {u : SymbolTable}
    → run (access_array name node) t ≡ ok u
    → Change t u
unfolding run
access-Change name node t h =
    let (s, e) = table_of-ok (add_array_access name node t) h in
    changed name (Symbols.add_usage node) (add_usage-IsFiled node)
      (add_array_access-modify name node t e)

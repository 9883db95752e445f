-- ===== src/Table/Functions.antt =====
-- SymbolTable.cpp: the operations on functions, their parameters and their calls.
use caramel.Prelude.{
  ℕ, suc, ◌==◌, String, str_eq, Bool, false, not, Option, none, some, List, [], ◌∷◌, map, length,
  if◌then◌else◌,
}
use caramel.Types.{PrimaryType, identifier, greater_than}
use caramel.Symbols.{
  Node, Symbol, Details, function, SymbolType, function_symbol, variable_symbol, array_symbol,
  type_symbol, FunctionParameterSignature, new_function, new_variable, new_array, signature_of,
}
use caramel.Symbols
use caramel.Table.{SymbolTable, is_declared, is_defined}
use caramel.Table.Errors.{
  Result, ok, err, fatal, ◌>>=◌, ◌>>◌, undefined_symbol, symbol_already_defined,
  symbol_type_mismatch, function_name_already_declared, parameter_name_mismatch,
  parameter_type_mismatch, number_of_parameters_mismatch, arguments_number_mismatch,
  arguments_type_mismatch, parameter_already_defined, not_a_parameter,
}
use caramel.Table.Variables.{Added, require, has_type, here, add_new, change}

-- `getParameters`, `getContext` and `isVariadic` of a function symbol.
abbrev parameters_in : Details → List FunctionParameterSignature
parameters_in (function context variadic parameters) = parameters
parameters_in _ = []

abbrev pub parameters_of : Symbol → List FunctionParameterSignature
parameters_of s = parameters_in s.details

abbrev context_in : Details → Option Node
context_in (function context variadic parameters) = context
context_in _ = none

abbrev pub context_of : Symbol → Option Node
context_of s = context_in s.details

abbrev variadic_in : Details → Bool
variadic_in (function context variadic parameters) = variadic
variadic_in _ = false

abbrev pub is_variadic : Symbol → Bool
is_variadic s = variadic_in s.details

-- The loop over the two lists of parameters, of one length: names first, then types.
unfoldable pub check_parameters :
    String → List FunctionParameterSignature → List FunctionParameterSignature → Result (Unit {0})
check_parameters name (p ∷ ps) (q ∷ qs) =
    let rest = check_parameters name ps qs in
    if not (str_eq p.name q.name)
    then err (parameter_name_mismatch name p.name q.name)
    else if not (str_eq (identifier p.primary_type) (identifier q.primary_type))
    then err (parameter_type_mismatch name p.primary_type q.primary_type)
    else rest
check_parameters name _ _ = ok tt

-- The test on the lengths before it.
unfoldable pub match_parameters :
    String → List FunctionParameterSignature → List FunctionParameterSignature → Result (Unit {0})
unfolding check_parameters
match_parameters name declared given =
    if length declared == length given
    then check_parameters name declared given
    else err (number_of_parameters_mismatch name (length declared) (length given))

-- The branch of `addFunctionDeclaration` where the name is declared.
redeclare : String → List FunctionParameterSignature → Node → SymbolTable → Result Added
unfolding require has_type match_parameters
redeclare name parameters node t = do
  s ← require name t
  if not (has_type function_symbol s) then err (function_name_already_declared name s) else (do
    match_parameters name (parameters_of s) parameters
    change name (Symbols.add_declaration (some node)) s t)

unfoldable pub add_function_declaration :
    PrimaryType
    → String
    → List FunctionParameterSignature
    → Node
    → Bool
    → SymbolTable
    → Result Added
unfolding redeclare
add_function_declaration type name parameters node variadic t =
    let fresh = Symbols.set_parameters parameters (new_function name type variadic) in
    if is_declared name t
    then redeclare name parameters node t
    else add_new name (Symbols.add_declaration (some node) fresh) t

-- `setContext` and `addDefinition` on a symbol of a function.
unfoldable pub define_function : Node → Node → Symbol → Symbol
define_function context node s = Symbols.add_definition (some node) (Symbols.set_context context s)

-- A function that is only declared has no context.
no_context : Option Node → Result (Unit {0})
no_context none = ok tt
no_context (some c) = fatal

-- The branch of `addFunctionDefinition` where the name is declared and not defined. The parameters
-- are the signatures of the symbols that are given.
define_declared :
    Node → String → List FunctionParameterSignature → Node → SymbolTable → Result Added
unfolding require has_type match_parameters define_function no_context
define_declared context name parameters node t = do
  s ← require name t
  if not (has_type function_symbol s) then err (function_name_already_declared name s) else (do
    no_context (context_of s)
    match_parameters name (parameters_of s) parameters
    change name (define_function context node) s t)

-- The symbol of a function that was not declared before. The source sets the parameters after the
-- context and before the definition.
abbrev defined_function :
    Node → PrimaryType → String → List FunctionParameterSignature → Node → Bool → Symbol
defined_function context type name parameters node variadic = Symbols.add_definition (some node) (
    Symbols.set_parameters parameters
      (Symbols.set_context context (new_function name type variadic)))

unfoldable pub add_function_definition :
    Node → PrimaryType → String → List Symbol → Node → Bool → SymbolTable → Result Added
unfolding require define_declared
add_function_definition context type name parameters node variadic t =
    let signatures = map (λ p. signature_of p) parameters in
    if is_defined name t
    then (do s ← require name t; err (symbol_already_defined name s))
    else if is_declared name t
    then define_declared context name signatures node t
    else add_new name (defined_function context type name signatures node variadic) t

-- The symbol of a parameter; only variables and arrays can be one.
unfoldable pub parameter_symbol : String → PrimaryType → SymbolType → Result Symbol
parameter_symbol name type array_symbol = ok (new_array name type)
parameter_symbol name type variable_symbol = ok (new_variable name type)
parameter_symbol name type _ = err (not_a_parameter name)

unfoldable pub add_function_parameter :
    String → PrimaryType → SymbolType → SymbolTable → Result Added
unfolding parameter_symbol require
add_function_parameter name type kind t =
    if is_defined name t
    then (do s ← require name t; err (parameter_already_defined name))
    else (do s ← parameter_symbol name type kind; add_new name s t)

-- The loop over the arguments, from the i-th on; the message counts from 1.
unfoldable pub check_arguments :
    String → ℕ → List FunctionParameterSignature → List PrimaryType → Result (Unit {0})
check_arguments name i (p ∷ ps) (a ∷ as_) =
    let rest = check_arguments name (suc i) ps as_ in
    if not (greater_than p.primary_type a)
    then err (arguments_type_mismatch name (suc i) p.primary_type a)
    else rest
check_arguments name i _ _ = ok tt

unfoldable pub match_arguments :
    String → List FunctionParameterSignature → List PrimaryType → Result (Unit {0})
unfolding check_arguments
match_arguments name parameters arguments =
    if not (length arguments == length parameters)
    then err (arguments_number_mismatch name (length parameters) (length arguments))
    else check_arguments name 0 parameters arguments

-- The body of `addFunctionCall` where the name is declared.
call_function : String → List PrimaryType → Node → SymbolTable → Result Added
unfolding require has_type here match_arguments
call_function name arguments node t = do
  s ← require name t
  if not (has_type function_symbol s)
      then err (symbol_type_mismatch name function_symbol (here name t))
      else (do
        if is_variadic s then ok tt else match_arguments name (parameters_of s) arguments
        change name (Symbols.add_usage node) s t)

-- The types of the arguments stand for `getArgumentsPrimaryTypes`.
unfoldable pub add_function_call : String → List PrimaryType → Node → SymbolTable → Result Added
unfolding call_function
add_function_call name arguments node t =
    if is_declared name t then call_function name arguments node t else err (undefined_symbol name)

-- ===== src/Table/Operations/Reached.antt =====
-- SymbolTable.cpp: what holds of every chain that the operations build.
use caramel.Prelude.{some, ◌≡◌, arith, subst}
use caramel.Symbols.{
  Node, Symbol, Details, variable, array, function, type_alias, SymbolType,
  FunctionParameterSignature, set_parameters, set_context, new_symbol, new_variable, new_array_of,
  new_function, new_type,
}
use caramel.Symbols
use caramel.Table.{SymbolTable, root, child}
use caramel.Table.Errors.{ok}
use caramel.Table.Validity.{IsValid, expire-IsValid}
use caramel.Table.Operations.{
  declare_variable, define_variable, use_variable, declare_array, define_array, access_array,
  declare_function, define_function, add_parameter, define_parameter, call_function, declare_type,
  alias_type, Operation, parent_of, run, Reach, start, step, enter, destroy, leave, Within, here,
  above, around,
}
use caramel.Table.Operations.Change.{Change, changed, Change-IsValid, add_definition-IsFiled}
use caramel.Table.Operations.Steps.{
  use-Change, access-Change, variable_declaration-Change, variable_definition-Change,
  array_declaration-Change, array_definition-Change, function_declaration-Change,
  function_definition-Change, parameter-Change, call-Change, primary_type-Change, alias-Change,
}

pub run-Change : (op : Operation) (t : SymbolTable) {u : SymbolTable} → run op t ≡ ok u → Change t u
unfolding run
run-Change (declare_variable type name node) t h = variable_declaration-Change type name node t h
run-Change (define_variable type name node) t h = variable_definition-Change type name node t h
run-Change (use_variable name node) t h = use-Change name node t h
run-Change (declare_array type name size node) t h =
    array_declaration-Change type name size node t h
run-Change (define_array type name content node) t h =
    array_definition-Change type name content node t h
run-Change (access_array name node) t h = access-Change name node t h
run-Change (declare_function type name ps node variadic) t h =
    function_declaration-Change type name ps node variadic t h
run-Change (define_function context type name ps node variadic) t h =
    function_definition-Change context type name ps node variadic t h
run-Change (add_parameter name type kind) t h = parameter-Change name type kind t h
run-Change (define_parameter name node) t h =
    changed name (Symbols.add_definition (some node)) (add_definition-IsFiled node) (ground arith)
run-Change (call_function name arguments node) t h = call-Change name arguments node t h
run-Change (declare_type type name) t h = primary_type-Change type name t h
run-Change (alias_type alias type node) t h = alias-Change alias type node t h

-- An operation that passes keeps a well-formed chain well formed: each symbol is filed under its own
-- name, and is declared if it is that of a type.
pub run-IsValid :
    (op : Operation) (t : SymbolTable) {u : SymbolTable} → run op t ≡ ok u → IsValid t → IsValid u
run-IsValid op t h v = Change-IsValid (run-Change op t h) v

within-IsValid : {op : Operation} {t u : SymbolTable} → Within op t u → IsValid t → IsValid u
within-IsValid {op} (here {t = t} h) v = run-IsValid op t h v
within-IsValid (above w) (v, rest) = (v, within-IsValid w rest)

parent_of-IsValid :
    (u : SymbolTable) {t : SymbolTable} → parent_of u ≡ some t → IsValid u → IsValid t
parent_of-IsValid (root m) h v = absurd (cc)
parent_of-IsValid (child m parent) {t = t} h (v, w) =
    let e : parent ≡ t = ground arith in subst (λ x. IsValid x) e w

-- In every chain that a sequence of operations on the current scope or one around it, of scope entries
-- and exits, and of destructions of nodes, builds from an empty root table, each symbol is filed under its
-- own name, and is declared if it is the symbol of a type.
pub Reach-IsValid : {t : SymbolTable} → Reach t → IsValid t
Reach-IsValid start = tt
Reach-IsValid (step {t = t} r op h) = run-IsValid op t h (Reach-IsValid r)
Reach-IsValid (around r op w) = within-IsValid w (Reach-IsValid r)
Reach-IsValid (enter r) = (tt, Reach-IsValid r)
Reach-IsValid (destroy {t = t} r dead) = expire-IsValid dead t (Reach-IsValid r)
Reach-IsValid (leave {u = u} r h) = parent_of-IsValid u h (Reach-IsValid r)

-- ===== src/Table/Parameters.antt =====
-- SymbolTable.cpp, `addFunctionParameter`: what its test on the name lets through.
use caramel.Prelude.{◌∙◌, String, ◌≡◌, refl, false, some, arith, str_eq, if◌then◌else◌}
use caramel.Types.{PrimaryType}
use caramel.Symbols.{
  Node, Symbol, SymbolType, variable_symbol, array_symbol, function_symbol, type_symbol,
  new_variable, new_array,
}
use caramel.Symbols
use caramel.Table.{SymbolTable, is_defined, get_symbol, put}
use caramel.Table.Errors.{ok}
use caramel.Table.Functions.{parameter_symbol, add_function_parameter}
use caramel.Table.Resolve.{is_defined-put, get_symbol-put}

parameter_symbol-is_defined :
    (name : String) (type : PrimaryType) (kind : SymbolType) {s : Symbol}
    → parameter_symbol name type kind ≡ ok s
    → Symbols.is_defined s ≡ false
unfolding parameter_symbol Symbols.is_defined
parameter_symbol-is_defined name type function_symbol h = cc
parameter_symbol-is_defined name type variable_symbol h = ground arith
parameter_symbol-is_defined name type type_symbol h = cc
parameter_symbol-is_defined name type array_symbol h = ground arith

-- Whether a symbol is made depends on the kind alone.
parameter_symbol_any :
    (name : String) (type type' : PrimaryType) (kind : SymbolType) {s : Symbol}
    → parameter_symbol name type kind ≡ ok s
    → (s' : Symbol) × (parameter_symbol name type' kind ≡ ok s')
unfolding parameter_symbol
parameter_symbol_any name type type' function_symbol h = absurd (cc)
parameter_symbol_any name type type' variable_symbol h = (new_variable name type', refl)
parameter_symbol_any name type type' type_symbol h = absurd (cc)
parameter_symbol_any name type type' array_symbol h = (new_array name type', refl)

add_function_parameter_inv :
    (name : String) (type : PrimaryType) (kind : SymbolType) (t : SymbolTable) {s : Symbol}
    {t' : SymbolTable}
    → add_function_parameter name type kind t ≡ ok (s, t')
    → (is_defined name t ≡ false) × (parameter_symbol name type kind ≡ ok s) × (t' ≡ put name s t)
unfolding add_function_parameter
add_function_parameter_inv name type kind t h = (ground arith, ground arith, ground arith)

-- Where a parameter is accepted, a second one of the same name and kind, of any type, is accepted after
-- it: its symbol takes the place of the first one, and every other name resolves as before both.
pub add_function_parameter_twice :
    (name : String) (type type' : PrimaryType) (kind : SymbolType) (t : SymbolTable) {s : Symbol}
    {t' : SymbolTable}
    → add_function_parameter name type kind t ≡ ok (s, t')
    → (s' : Symbol) × (parameter_symbol name type' kind ≡ ok s')
      × (add_function_parameter name type' kind t' ≡ ok (s', put name s' t'))
      × ((j : String)
          → get_symbol j (put name s' t') ≡ (if str_eq name j then some s' else get_symbol j t))
unfolding add_function_parameter
add_function_parameter_twice name type type' kind t {s = s} {t' = t'} h =
    let (d, e, p) = add_function_parameter_inv name type kind t h in
    let (s', e') = parameter_symbol_any name type type' kind e in
    let fresh : is_defined name t' ≡ false =
      rw p (is_defined-put name s t d ∙ parameter_symbol-is_defined name type kind e) in
    let g : (j : String)
        → get_symbol j (put name s' t') ≡ (if str_eq name j then some s' else get_symbol j t) =
      λ j. ground (arith, p, get_symbol-put name s' t' j, get_symbol-put name s t j) in
    (s', e', ground arith, g)

-- ===== src/Table/Variables.antt =====
-- SymbolTable.cpp: the operations on variables.
use caramel.Prelude.{
  String, Bool, true, false, ◌&&◌, not, Option, none, some, lookup, if◌then◌else◌,
}
use caramel.Types.{PrimaryType, equals}
use caramel.Symbols.{
  Node, Symbol, SymbolType, variable_symbol, array_symbol, function_symbol, type_symbol,
  symbol_type, new_variable,
}
use caramel.Symbols
use caramel.Table.{
  SymbolTable, root, child, symbol_map, put, get_symbol, is_declared, is_defined, modify,
}
use caramel.Table.Errors.{
  Result, ok, err, ◌>>=◌, undefined_symbol, symbol_already_defined, symbol_already_declared,
  symbol_type_mismatch, type_mismatch,
}

-- `getSymbol` where it throws.
unfoldable pub require : String → SymbolTable → Result Symbol
require name t = elim (get_symbol name t) [ some s ↦ ok s | none ↦ err (undefined_symbol name) ]

-- `getSymbolType() == type`
unfoldable pub has_type : SymbolType → Symbol → Bool
has_type type s = same type (symbol_type s)
  where
    same : SymbolType → SymbolType → Bool
    same function_symbol function_symbol = true
    same variable_symbol variable_symbol = true
    same type_symbol type_symbol = true
    same array_symbol array_symbol = true
    same _ _ = false

-- `mSymbolMap[name]`
unfoldable pub here : String → SymbolTable → Option Symbol
here name t = lookup name (symbol_map t)

-- The new symbol and the chain with it.
abbrev pub Added : Type 0
Added = Symbol × SymbolTable

abbrev pub add_new : String → Symbol → SymbolTable → Result Added
add_new name s t = ok (s, put name s t)

abbrev pub change : String → (Symbol → Symbol) → Symbol → SymbolTable → Result Added
change name f s t = ok (f s, modify name f t)

unfoldable pub add_variable_declaration : PrimaryType → String → Node → SymbolTable → Result Added
unfolding require
add_variable_declaration type name node t =
    if is_defined name t
    then (do s ← require name t; err (symbol_already_defined name s))
    else if is_declared name t
    then (do s ← require name t; err (symbol_already_declared name s))
    else add_new name (Symbols.add_declaration (some node) (new_variable name type)) t

-- The branch of `addVariableDefinition` where the name is declared and not defined.
define_declared : PrimaryType → String → Node → SymbolTable → Result Added
unfolding require has_type here
define_declared type name node t = do
  s ← require name t
  if not (has_type variable_symbol s)
      then err (symbol_type_mismatch name variable_symbol (here name t))
      else if not (equals s.type type)
      then err (type_mismatch name type (here name t))
      else change name (Symbols.add_definition (some node)) s t

unfoldable pub add_variable_definition : PrimaryType → String → Node → SymbolTable → Result Added
unfolding require define_declared
add_variable_definition type name node t =
    if is_defined name t
    then (do s ← require name t; err (symbol_already_defined name s))
    else if is_declared name t
    then define_declared type name node t
    else add_new name (Symbols.add_definition (some node) (new_variable name type)) t

-- The body of `addVariableUsage` where the name is defined.
use_variable : String → Node → SymbolTable → Result Added
unfolding require has_type here
use_variable name node t = do
  s ← require name t
  if not (has_type variable_symbol s) && not (has_type array_symbol s)
      then err (symbol_type_mismatch name variable_symbol (here name t))
      else change name (Symbols.add_usage node) s t

-- A result of the parent's table is put back under this one.
abbrev pub under :
    {A : Type 0} → (SymbolTable → SymbolTable) → Result (A × SymbolTable) → Result (A × SymbolTable)
under f r = do (a, t) ← r; ok (a, f t)

unfoldable pub add_variable_usage : String → Node → SymbolTable → Result Added
unfolding use_variable
add_variable_usage name node (root m) =
    if is_defined name (root m)
    then use_variable name node (root m)
    else err (undefined_symbol name)
add_variable_usage name node (child m parent) =
    let above = under (child m) (add_variable_usage name node parent) in
    if is_defined name (child m parent) then use_variable name node (child m parent) else above

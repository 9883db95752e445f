-- ===== src/Table/Arrays.antt =====
-- SymbolTable.cpp: the operations on arrays.
use caramel.Prelude.{ℕ, String, Option, none, some, List, not, if◌then◌else◌}
use caramel.Types.{PrimaryType, equals}
use caramel.Symbols.{Node, Symbol, array_symbol, new_array, new_sized_array, new_array_of}
use caramel.Symbols
use caramel.Table.{SymbolTable, root, child, is_declared, is_defined}
use caramel.Table.Errors.{
  Result, err, ◌>>=◌, undefined_symbol, symbol_already_defined, symbol_already_declared,
  symbol_type_mismatch, type_mismatch,
}
use caramel.Table.Variables.{Added, require, has_type, here, add_new, change, under}

-- `none` is an array declared without a size.
unfoldable pub declared_array : String → PrimaryType → Option ℕ → Symbol
declared_array name type none = new_array name type
declared_array name type (some size) = new_sized_array name type size

unfoldable pub add_array_declaration :
    PrimaryType → String → Option ℕ → Node → SymbolTable → Result Added
unfolding require declared_array
add_array_declaration type name size node t =
    if is_defined name t
    then (do s ← require name t; err (symbol_already_defined name s))
    else if is_declared name t
    then (do s ← require name t; err (symbol_already_declared name s))
    else add_new name (Symbols.add_declaration (some node) (declared_array name type size)) t

-- The branch of `addArrayDefinition` where the name is declared and not defined.
define_declared : PrimaryType → String → Node → SymbolTable → Result Added
unfolding require has_type here
define_declared type name node t = do
  s ← require name t
  if not (has_type array_symbol s)
      then err (symbol_type_mismatch name array_symbol (here name t))
      else if not (equals s.type type)
      then err (type_mismatch name type (here name t))
      else change name (Symbols.add_definition (some node)) s t

unfoldable pub add_array_definition :
    PrimaryType → String → List Node → Node → SymbolTable → Result Added
unfolding require define_declared
add_array_definition type name content node t =
    if is_defined name t
    then (do s ← require name t; err (symbol_already_defined name s))
    else if is_declared name t
    then define_declared type name node t
    else add_new name (Symbols.add_definition (some node) (new_array_of name type content)) t

-- The body of `addArrayAccess` where the name is defined.
access_array : String → Node → SymbolTable → Result Added
unfolding require has_type here
access_array name node t = do
  s ← require name t
  if not (has_type array_symbol s)
      then err (symbol_type_mismatch name array_symbol (here name t))
      else change name (Symbols.add_usage node) s t

unfoldable pub add_array_access : String → Node → SymbolTable → Result Added
unfolding access_array
add_array_access name node (root m) =
    if is_defined name (root m)
    then access_array name node (root m)
    else err (undefined_symbol name)
add_array_access name node (child m parent) =
    let above = under (child m) (add_array_access name node parent) in
    if is_defined name (child m parent) then access_array name node (child m parent) else above

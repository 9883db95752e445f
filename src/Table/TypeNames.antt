-- ===== src/Table/TypeNames.antt =====
-- SymbolTable.cpp: the operations on the names of types.
use caramel.Prelude.{String, none, some, ◌&&◌, not, if◌then◌else◌}
use caramel.Types.{PrimaryType}
use caramel.Symbols.{Node, Symbol, new_type}
use caramel.Symbols
use caramel.Table.{SymbolTable, put, is_declared, is_defined}
use caramel.Table.Variables.{Added, add_new, here}
use caramel.Table.Errors.{Result, ok, err, fatal, type_already_declared}

-- `addPrimaryType`: both pointers are null, and the symbol counts as declared and defined.
unfoldable pub add_primary_type : PrimaryType → String → SymbolTable → Result SymbolTable
add_primary_type type name t =
    if not (is_declared name t) && not (is_defined name t)
    then ok (
        put name (Symbols.add_definition none (Symbols.add_declaration none (new_type name type)))
          t)
    else fatal

-- `addType`, for the alias and the type that the definition's symbol holds.
unfoldable pub add_type : String → PrimaryType → Node → SymbolTable → Result Added
unfolding here
add_type alias type node t =
    if not (is_declared alias t)
    then add_new alias (Symbols.add_definition (some node) (new_type alias type)) t
    else err (type_already_declared alias (here alias t))

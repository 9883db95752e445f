-- ===== src/Table/Access.antt =====
-- SymbolTable.cpp, `addArrayAccess`: what an access to an array finds, and what it changes.
use caramel.Prelude.{
  String, ◌⊎◌, ◌≡◌, true, false, some, arith, if◌then◌else◌, Bool-cases, inl, inr,
}
use caramel.Symbols.{Node, Symbol, array_symbol}
use caramel.Symbols
use caramel.Table.{SymbolTable, root, child, get_symbol, is_defined, modify}
use caramel.Table.Errors.{Result, ok, err, undefined_symbol, symbol_type_mismatch}
use caramel.Table.Variables.{Added, require, has_type, here}
use caramel.Table.Arrays.{add_array_access}
use caramel.Table.Resolve.{defined-has_symbol}

-- The innermost symbol of the name, if it is an array.
resolve_access : String → Node → SymbolTable → Symbol → Result Added
resolve_access name node t s =
    if has_type array_symbol s
    then ok (Symbols.add_usage node s, modify name (Symbols.add_usage node) t)
    else err (symbol_type_mismatch name array_symbol (here name t))

add_array_access-undefined :
    (name : String) (node : Node) (t : SymbolTable)
    → is_defined name t ≡ false
    → add_array_access name node t ≡ err (undefined_symbol name)
unfolding add_array_access is_defined
add_array_access-undefined name node (root m) h = ground arith
add_array_access-undefined name node (child m parent) h =
    ground (arith, add_array_access-undefined name node parent (ground arith))

add_array_access-defined :
    (name : String) (node : Node) (t : SymbolTable) (s : Symbol)
    → is_defined name t ≡ true
    → get_symbol name t ≡ some s
    → add_array_access name node t ≡ resolve_access name node t s
unfolding add_array_access resolve_access require
add_array_access-defined name node (root m) s h e = ground arith
add_array_access-defined name node (child m parent) s h e = ground arith

-- An access to an array, at any depth of the chain: it is refused as undefined exactly when no table
-- of the chain defines the name; otherwise the innermost symbol of the name decides, and only an
-- array passes, with one more occurrence.
pub add_array_access-resolve :
    (name : String) (node : Node) (t : SymbolTable)
    → ((is_defined name t ≡ false) × (add_array_access name node t ≡ err (undefined_symbol name)))
      ⊎ ((s : Symbol) × (is_defined name t ≡ true)
          × (get_symbol name t ≡ some s)
          × (add_array_access name node t ≡ (
              if has_type array_symbol s
              then ok (Symbols.add_usage node s, modify name (Symbols.add_usage node) t)
              else err (symbol_type_mismatch name array_symbol (here name t)))))
unfolding resolve_access
add_array_access-resolve name node t = elim (Bool-cases (is_defined name t)) [
  | inr h ↦ inl (h, add_array_access-undefined name node t h)
  | inl h ↦
      (let (s, e) = defined-has_symbol name t h in
        inr (s, h, e, add_array_access-defined name node t s h e))
]

pub add_array_access-modify :
    (name : String) (node : Node) (t : SymbolTable) {s' : Symbol} {t' : SymbolTable}
    → add_array_access name node t ≡ ok (s', t')
    → t' ≡ modify name (Symbols.add_usage node) t
unfolding resolve_access
add_array_access-modify name node t h = elim (Bool-cases (is_defined name t)) [
  | inr u ↦ cc (add_array_access-undefined name node t u)
  | inl d ↦
      (let (s, e) = defined-has_symbol name t d in
        ground (arith, add_array_access-defined name node t s d e))
]

-- ===== src/Table.antt =====
-- src/ast/symboltable/SymbolTable.cpp: a table and the chain of its parents, and what is read from
-- it. The tables form a tree whose children the visitor fills one after the other, so the chain
-- from the current table to the root is the whole state that an operation reads or writes: an
-- operation on a parent's table, or on a symbol found there, returns the chain with that part new.
pub mod Errors
pub mod Resolve
pub mod Variables
pub mod Arrays
pub mod Functions
pub mod TypeNames
pub mod Usage
pub mod Access
pub mod Declaring
pub mod Parameters
pub mod Calls
pub mod Validity
pub mod Operations
mod Tests
use caramel.Prelude.{
  String, Bool, true, false, ◌&&◌, ◌||◌, not, Option, none, some, List, [], ◌∷◌, is_some, lookup,
  insert, if◌then◌else◌,
}
use caramel.Symbols.{Node, Symbol}
use caramel.Symbols

abbrev pub SymbolMap : Type 0
SymbolMap = List (String × Symbol)

-- `mSymbolMap`, and `mParentTable` if there is one.
pub data SymbolTable : Type 0 where
  root : SymbolMap → SymbolTable
  child : SymbolMap → SymbolTable → SymbolTable

-- `mSymbolMap` of this table.
unfoldable pub symbol_map : SymbolTable → SymbolMap
symbol_map (root m) = m
symbol_map (child m parent) = m

-- `mSymbolMap[name] = symbol`
unfoldable pub put : String → Symbol → SymbolTable → SymbolTable
put name s (root m) = root (insert name s m)
put name s (child m parent) = child (insert name s m) parent

unfoldable pub this_has_symbol : String → SymbolTable → Bool
unfolding symbol_map
this_has_symbol name t = is_some (lookup name (symbol_map t))

-- `hasSymbol`; its second half is `parentHasSymbol`.
unfoldable pub has_symbol : String → SymbolTable → Bool
has_symbol name (root m) = is_some (lookup name m)
has_symbol name (child m parent) = is_some (lookup name m) || has_symbol name parent

-- `getSymbol`: the innermost symbol of that name; `none` where the source throws.
unfoldable pub get_symbol : String → SymbolTable → Option Symbol
get_symbol name (root m) = lookup name m
get_symbol name (child m parent) =
    let above = get_symbol name parent in elim (lookup name m) [ some s ↦ some s | none ↦ above ]

abbrev pub holds : (Symbol → Bool) → Option Symbol → Bool
holds test none = false
holds test (some s) = test s

-- Some table of the chain has a symbol of that name that is declared (defined).
unfoldable pub is_declared : String → SymbolTable → Bool
is_declared name (root m) = holds Symbols.is_declared (lookup name m)
is_declared name (child m parent) =
    holds Symbols.is_declared (lookup name m) || is_declared name parent

unfoldable pub is_defined : String → SymbolTable → Bool
is_defined name (root m) = holds Symbols.is_defined (lookup name m)
is_defined name (child m parent) =
    holds Symbols.is_defined (lookup name m) || is_defined name parent

-- A change to the symbol that `getSymbol` returns: the table that holds it shares it.
unfoldable pub modify : String → (Symbol → Symbol) → SymbolTable → SymbolTable
modify name f (root m) = elim (lookup name m) [
  | some s ↦ root (insert name (f s) m)
  | none ↦ root m
]
modify name f (child m parent) =
    let above = modify name f parent in
    elim (lookup name m) [ some s ↦ child (insert name (f s) m) parent | none ↦ child m above ]

unfoldable pub expire_map : (Node → Bool) → SymbolMap → SymbolMap
expire_map dead [] = []
expire_map dead ((name, s) ∷ m) = (name, Symbols.expire dead s) ∷ expire_map dead m

-- The weak pointers of every symbol of the chain when nodes are destroyed.
unfoldable pub expire : (Node → Bool) → SymbolTable → SymbolTable
unfolding expire_map
expire dead (root m) = root (expire_map dead m)
expire dead (child m parent) = child (expire_map dead m) (expire dead parent)

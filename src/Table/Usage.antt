-- ===== src/Table/Usage.antt =====
-- SymbolTable.cpp, `addVariableUsage`: what a use of a variable finds, and what it changes.
use caramel.Prelude.{
  ◌⊎◌, String, ◌≡◌, true, false, ◌||◌, some, arith, str_eq, if◌then◌else◌, Bool-cases, inl, inr,
}
use caramel.Symbols.{Node, Symbol, variable_symbol, array_symbol, function_symbol}
use caramel.Symbols
use caramel.Table.{SymbolTable, root, child, get_symbol, is_defined, modify}
use caramel.Table.Errors.{Result, ok, err, undefined_symbol, symbol_type_mismatch}
use caramel.Table.Variables.{Added, require, has_type, here, add_variable_usage}
use caramel.Table.Resolve.{get_symbol-modify, defined-has_symbol}

-- What `addVariableUsage` does, read off the chain with no recursion: `getSymbol` on the whole
-- chain, then the test of its kind.
resolve_usage : String → Node → SymbolTable → Symbol → Result Added
resolve_usage name node t s =
    if has_type variable_symbol s || has_type array_symbol s
    then ok (Symbols.add_usage node s, modify name (Symbols.add_usage node) t)
    else err (symbol_type_mismatch name variable_symbol (here name t))

-- A name that is defined nowhere in the chain is refused at every depth.
add_variable_usage-undefined :
    (name : String) (node : Node) (t : SymbolTable)
    → is_defined name t ≡ false
    → add_variable_usage name node t ≡ err (undefined_symbol name)
unfolding add_variable_usage is_defined
add_variable_usage-undefined name node (root m) h = ground arith
add_variable_usage-undefined name node (child m parent) h =
    ground (arith, add_variable_usage-undefined name node parent (ground arith))

add_variable_usage-defined :
    (name : String) (node : Node) (t : SymbolTable) (s : Symbol)
    → is_defined name t ≡ true
    → get_symbol name t ≡ some s
    → add_variable_usage name node t ≡ resolve_usage name node t s
unfolding add_variable_usage resolve_usage require
add_variable_usage-defined name node (root m) s h e = ground arith
add_variable_usage-defined name node (child m parent) s h e = ground arith

-- A use of a variable, at any depth of the chain: it is refused as undefined exactly when no table
-- of the chain defines the name; otherwise the innermost symbol of the name decides, and only a
-- variable or an array passes, with one more occurrence.
pub add_variable_usage-resolve :
    (name : String) (node : Node) (t : SymbolTable)
    → ((is_defined name t ≡ false) × (add_variable_usage name node t ≡ err (undefined_symbol name)))
      ⊎ ((s : Symbol) × (is_defined name t ≡ true)
          × (get_symbol name t ≡ some s)
          × (add_variable_usage name node t ≡ (
              if has_type variable_symbol s || has_type array_symbol s
              then ok (Symbols.add_usage node s, modify name (Symbols.add_usage node) t)
              else err (symbol_type_mismatch name variable_symbol (here name t)))))
unfolding resolve_usage
add_variable_usage-resolve name node t = elim (Bool-cases (is_defined name t)) [
  | inr h ↦ inl (h, add_variable_usage-undefined name node t h)
  | inl h ↦
      (let (s, e) = defined-has_symbol name t h in
        inr (s, h, e, add_variable_usage-defined name node t s h e))
]

-- A use that passes adds its node to the occurrences of the innermost symbol of the name, and every
-- other name resolves as before.
pub get_symbol-add_variable_usage :
    (name : String) (node : Node) (t : SymbolTable) {s' : Symbol} {t' : SymbolTable}
    → add_variable_usage name node t ≡ ok (s', t')
    → (s : Symbol) × (get_symbol name t ≡ some s)
      × (s' ≡ Symbols.add_usage node s)
      × ((j : String) → get_symbol j t' ≡ (if str_eq name j then some s' else get_symbol j t))
unfolding resolve_usage
get_symbol-add_variable_usage name node t {s' = s'} {t' = t'} h =
    elim (Bool-cases (is_defined name t)) [
      | inr u ↦ cc (add_variable_usage-undefined name node t u)
      | inl d ↦
          (let (s, e) = defined-has_symbol name t d in
            let r = add_variable_usage-defined name node t s d e in
            (
              s,
              e,
              ground (arith, r),
              λ j. ground (arith, r, get_symbol-modify name (Symbols.add_usage node) t e j),
            ))
    ]

pub add_variable_usage-modify :
    (name : String) (node : Node) (t : SymbolTable) {s' : Symbol} {t' : SymbolTable}
    → add_variable_usage name node t ≡ ok (s', t')
    → t' ≡ modify name (Symbols.add_usage node) t
unfolding resolve_usage
add_variable_usage-modify name node t h = elim (Bool-cases (is_defined name t)) [
  | inr u ↦ cc (add_variable_usage-undefined name node t u)
  | inl d ↦
      (let (s, e) = defined-has_symbol name t d in
        ground (arith, add_variable_usage-defined name node t s d e))
]

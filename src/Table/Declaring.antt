-- ===== src/Table/Declaring.antt =====
-- SymbolTable.cpp: a name is declared once, and defined once at the type of its declaration.
use caramel.Prelude.{
  ap, lookup, ◌∙◌, String, ◌≡◌, refl, Bool, true, false, ◌||◌, not, some, arith, str_eq,
  if◌then◌else◌, Bool-cases, inl, inr,
}
use caramel.Types.{PrimaryType, equals}
use caramel.Symbols.{Node, Symbol, variable, new_variable}
use caramel.Symbols
use caramel.Table.{symbol_map, SymbolTable, get_symbol, is_declared, is_defined, put, modify}
use caramel.Table.Errors.{Result, ok, err, type_mismatch}
use caramel.Table.Variables.{
  add_variable_declaration, add_variable_definition, require, has_type, here,
}
use caramel.Table.Resolve.{
  get_symbol-put, get_symbol-put_self, lookup-symbol_map-put, declared-has_symbol,
  defined-has_symbol, is_defined-put, is_declared-put,
}

abbrev pub succeeds {ℓ} : {A : Type ℓ} → Result A → Bool
succeeds (ok a) = true
succeeds _ = false

-- A declaration passes exactly when no table of the chain declares or defines the name, so it
-- never shadows a name that is in use.
pub succeeds-add_variable_declaration :
    (type : PrimaryType) (name : String) (node : Node) (t : SymbolTable)
    → succeeds (add_variable_declaration type name node t)
      ≡ not (is_defined name t || is_declared name t)
unfolding add_variable_declaration
succeeds-add_variable_declaration type name node t = elim (Bool-cases (is_defined name t)) [
  | inl d ↦ (let (s, e) = defined-has_symbol name t d in ground arith)
  | inr u ↦ elim (Bool-cases (is_declared name t)) [
    | inl d ↦ (let (s, e) = declared-has_symbol name t d in ground arith)
    | inr v ↦ ground arith
  ]
]

abbrev declared_variable : PrimaryType → String → Node → Symbol
declared_variable type name node = Symbols.add_declaration (some node) (new_variable name type)

add_variable_declaration_inv :
    (type : PrimaryType) (name : String) (node : Node) (t : SymbolTable) {s : Symbol}
    {t' : SymbolTable}
    → add_variable_declaration type name node t ≡ ok (s, t')
    → (is_defined name t ≡ false)
      × (is_declared name t ≡ false)
      × (s ≡ declared_variable type name node)
      × (t' ≡ put name (declared_variable type name node) t)
unfolding add_variable_declaration
add_variable_declaration_inv type name node t h =
    (ground arith, ground arith, ground arith, ground arith)

declared_variable-is_defined :
    (type : PrimaryType) (name : String) (node : Node)
    → Symbols.is_defined (declared_variable type name node) ≡ false
unfolding Symbols.is_defined Symbols.add_declaration
declared_variable-is_defined type name node = refl

declared_variable-is_declared :
    (type : PrimaryType) (name : String) (node : Node)
    → Symbols.is_declared (declared_variable type name node) ≡ true
unfolding Symbols.is_declared Symbols.add_declaration
declared_variable-is_declared type name node = refl

-- After a declaration that passes, the name is declared and not defined, resolves to the new
-- symbol, which has the name and the type that were given, and every other name resolves as before.
pub add_variable_declaration-get_symbol :
    (type : PrimaryType) (name : String) (node : Node) (t : SymbolTable) {s : Symbol}
    {t' : SymbolTable}
    → add_variable_declaration type name node t ≡ ok (s, t')
    → (is_declared name t' ≡ true)
      × (is_defined name t' ≡ false)
      × (s.name ≡ name)
      × (s.type ≡ type)
      × ((j : String) → get_symbol j t' ≡ (if str_eq name j then some s else get_symbol j t))
unfolding Symbols.add_declaration
add_variable_declaration-get_symbol type name node t {s = s} {t' = t'} h =
    let (d, u, es, et) = add_variable_declaration_inv type name node t h in
    let v = declared_variable type name node in
    (
      rw et (is_declared-put name v t u ∙ declared_variable-is_declared type name node),
      rw et (is_defined-put name v t d ∙ declared_variable-is_defined type name node),
      rw es,
      rw es,
      λ j. rw (es, et) (get_symbol-put name v t j),
    )

-- The definition of a variable that the chain declares, with its symbol in the current table.
definition_of_declared :
    (type type' : PrimaryType) (name : String) (node : Node) (t : SymbolTable) (s : Symbol)
    → is_declared name t ≡ true
    → is_defined name t ≡ false
    → get_symbol name t ≡ some s
    → here name t ≡ some s
    → s.details ≡ variable
    → s.type ≡ type
    → add_variable_definition type' name node t ≡ (
        if equals type type'
        then ok (
          Symbols.add_definition (some node) s,
          modify name (Symbols.add_definition (some node)) t,
        )
        else err (type_mismatch name type' (some s)))
unfolding add_variable_definition require has_type here
definition_of_declared type type' name node t s d u e f v w = ground arith

-- A variable that was declared is defined once, at the type of its declaration: an equal type
-- passes and defines the declared symbol, any other type is a mismatch that names the symbol.
pub add_variable_definition-add_variable_declaration :
    (type type' : PrimaryType) (name : String) (node node' : Node) (t : SymbolTable) {s : Symbol}
    {t' : SymbolTable}
    → add_variable_declaration type name node t ≡ ok (s, t')
    → add_variable_definition type' name node' t' ≡ (
        if equals type type'
        then ok (
          Symbols.add_definition (some node') s,
          modify name (Symbols.add_definition (some node')) t',
        )
        else err (type_mismatch name type' (some s)))
unfolding here Symbols.add_declaration
add_variable_definition-add_variable_declaration type type' name node node' t {s = s} {t' = t'} h =
    let (d, u, es, et) = add_variable_declaration_inv type name node t h in
    let v = declared_variable type name node in
    let (d', u', _, _, _) = add_variable_declaration-get_symbol type name node t h in
    let found : get_symbol name t' ≡ some s = rw (es, et) (get_symbol-put_self name v t) in
    let this : lookup name (symbol_map t') ≡ some s =
      rw (es, et) (lookup-symbol_map-put name v t) in
    let type_of : s.type ≡ type = ap (λ x. x.type) es in
    let variable_of : s.details ≡ variable = ap (λ x. x.details) es in
    definition_of_declared type type' name node' t' s d' u' found this variable_of type_of

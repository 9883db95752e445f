-- ===== src/Table/Resolve.antt =====
-- SymbolTable.cpp: laws of `getSymbol`, `isDeclared`, `isDefined`, and of writing to the chain.
use caramel.Prelude.{
  eq_refl, ◌∙◌, true, false, lookup-insert_self, String, ◌≡◌, refl, some, arith, str_eq, eq_iff,
  lookup, lookup-insert, if◌then◌else◌, Option-cases, inl, inr, is_some,
}
use caramel.Symbols.{Symbol}
use caramel.Symbols
use caramel.Table.{
  symbol_map, is_declared, is_defined, SymbolTable, root, child, put, get_symbol, modify,
  has_symbol,
}

module _ (name : String) (s : Symbol) where
  pub get_symbol-put :
      (t : SymbolTable) (j : String)
      → get_symbol j (put name s t) ≡ (if str_eq name j then some s else get_symbol j t)
  unfolding get_symbol put
  get_symbol-put (root m) j = lookup-insert name j s m
  get_symbol-put (child m parent) j = ground (arith, lookup-insert name j s m)

module _ (name : String) (f : Symbol → Symbol) where
  -- A change shows at its name alone, whatever the depth at which the symbol is found.
  pub get_symbol-modify :
      (t : SymbolTable) {s : Symbol}
      → get_symbol name t ≡ some s
      → (j : String)
      → get_symbol j (modify name f t) ≡ (if str_eq name j then some (f s) else get_symbol j t)
  unfolding get_symbol modify
  get_symbol-modify (root m) {s} h j = ground (arith, lookup-insert name j (f s) m)
  get_symbol-modify (child m parent) {s} h j = elim (Option-cases (lookup name m)) [
    | inl e ↦ ground (arith, get_symbol-modify parent {s = s} (ground arith) j, eq_iff name j)
    | inr (r, e) ↦ ground (arith, lookup-insert name j (f r) m)
  ]

  pub has_symbol-get_symbol : (t : SymbolTable) → has_symbol name t ≡ is_some (get_symbol name t)
  unfolding has_symbol get_symbol
  has_symbol-get_symbol (root m) = refl
  has_symbol-get_symbol (child m parent) = ground (arith, has_symbol-get_symbol parent)

-- `isDeclared` and `isDefined` walk the chain alike; `test` is the test on one symbol.
pub declared-has_symbol :
    (name : String) (t : SymbolTable)
    → is_declared name t ≡ true
    → (s : Symbol) × (get_symbol name t ≡ some s)
unfolding is_declared get_symbol
declared-has_symbol name (root m) h = elim (Option-cases (lookup name m)) [
  | inl e ↦ cc
  | inr found ↦ found
]
declared-has_symbol name (child m parent) h = elim (Option-cases (lookup name m)) [
  | inl e ↦ (let (s, found) = declared-has_symbol name parent (ground arith) in (s, ground arith))
  | inr (s, e) ↦ (s, ground arith)
]

pub defined-has_symbol :
    (name : String) (t : SymbolTable)
    → is_defined name t ≡ true
    → (s : Symbol) × (get_symbol name t ≡ some s)
unfolding is_defined get_symbol
defined-has_symbol name (root m) h = elim (Option-cases (lookup name m)) [
  | inl e ↦ cc
  | inr found ↦ found
]
defined-has_symbol name (child m parent) h = elim (Option-cases (lookup name m)) [
  | inl e ↦ (let (s, found) = defined-has_symbol name parent (ground arith) in (s, ground arith))
  | inr (s, e) ↦ (s, ground arith)
]

module _ (name : String) (s : Symbol) where
  -- A symbol that is put into the table of a chain where its name is not defined.
  pub is_defined-put :
      (t : SymbolTable)
      → is_defined name t ≡ false
      → is_defined name (put name s t) ≡ Symbols.is_defined s
  unfolding is_defined put
  is_defined-put (root m) h = ground (arith, lookup-insert_self name s m)
  is_defined-put (child m parent) h = ground (arith, lookup-insert_self name s m)

  pub is_declared-put :
      (t : SymbolTable)
      → is_declared name t ≡ false
      → is_declared name (put name s t) ≡ Symbols.is_declared s
  unfolding is_declared put
  is_declared-put (root m) h = ground (arith, lookup-insert_self name s m)
  is_declared-put (child m parent) h = ground (arith, lookup-insert_self name s m)

  pub lookup-symbol_map-put : (t : SymbolTable) → lookup name (symbol_map (put name s t)) ≡ some s
  unfolding symbol_map put
  lookup-symbol_map-put (root m) = lookup-insert_self name s m
  lookup-symbol_map-put (child m parent) = lookup-insert_self name s m

  pub get_symbol-put_self : (t : SymbolTable) → get_symbol name (put name s t) ≡ some s
  get_symbol-put_self t = get_symbol-put name s t name ∙ rw (eq_refl name)

-- A change that leaves the mark of a definition leaves the answer of `isDefined`.
pub is_defined-modify :
    (name : String) (f : Symbol → Symbol) (t : SymbolTable)
    → ((s : Symbol) → Symbols.is_defined (f s) ≡ Symbols.is_defined s)
    → is_defined name (modify name f t) ≡ is_defined name t
unfolding is_defined modify
is_defined-modify name f (root m) h = elim (Option-cases (lookup name m)) [
  | inl e ↦ ground arith
  | inr (s, e) ↦ ground (arith, lookup-insert_self name (f s) m, h s)
]
is_defined-modify name f (child m parent) h = elim (Option-cases (lookup name m)) [
  | inl e ↦ ground (arith, is_defined-modify name f parent h)
  | inr (s, e) ↦ ground (arith, lookup-insert_self name (f s) m, h s)
]

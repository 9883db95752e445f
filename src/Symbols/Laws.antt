-- ===== src/Symbols/Laws.antt =====
-- src/ast/symboltable/Symbol.cpp: what a declaration, a definition and a use do to a symbol.
use caramel.Prelude.{◌≡◌, true, some, arith}
use caramel.Symbols.{Node, Symbol, is_declared, is_defined, add_declaration, add_definition}

module _ (node : Node) (s : Symbol) where
  pub add_declaration-is_declared : is_declared (add_declaration (some node) s) ≡ true
  unfolding is_declared add_declaration
  add_declaration-is_declared = ground arith

  pub add_definition-is_declared : is_declared (add_definition (some node) s) ≡ true
  unfolding is_declared add_definition
  add_definition-is_declared = ground arith

  pub add_definition-is_defined : is_defined (add_definition (some node) s) ≡ true
  unfolding is_defined add_definition
  add_definition-is_defined = ground arith

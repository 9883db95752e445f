-- ===== src/Table/Operations/Change.antt =====
-- Symbol.cpp and SymbolTable.cpp: the changes that keep a chain well formed.
use caramel.Prelude.{sym, String, some, Option, List, ◌≡◌, arith, subst}
use caramel.Types.{PrimaryType}
use caramel.Symbols.{
  Node, Symbol, Details, variable, array, function, type_alias, SymbolType,
  FunctionParameterSignature, set_parameters, set_context, new_symbol, new_variable, new_array_of,
  new_function, new_type,
}
use caramel.Symbols
use caramel.Table.{SymbolTable, put, modify}
use caramel.Table.Variables.{has_type}
use caramel.Table.Validity.{IsFiled, IsValid, Keeps, put-IsValid, modify-IsValid}

-- What the methods of a symbol do to its filing.
pub add_declaration-IsFiled : (node : Node) → Keeps (Symbols.add_declaration (some node))
unfolding Symbols.add_declaration Symbols.is_defined Symbols.is_declared has_type
add_declaration-IsFiled node name s filed = ground arith

pub add_definition-IsFiled : (node : Node) → Keeps (Symbols.add_definition (some node))
unfolding Symbols.add_definition Symbols.is_defined Symbols.is_declared has_type
add_definition-IsFiled node name s filed = ground arith

pub add_usage-IsFiled : (node : Node) → Keeps (Symbols.add_usage node)
unfolding Symbols.add_usage Symbols.is_defined Symbols.is_declared has_type
add_usage-IsFiled node name s filed = ground arith

pub set_context-IsFiled : (context : Node) → Keeps (set_context context)
unfolding set_context Symbols.is_defined Symbols.is_declared has_type
set_context-IsFiled context name s filed = ground arith

pub set_parameters-IsFiled :
    (parameters : List FunctionParameterSignature) → Keeps (set_parameters parameters)
unfolding set_parameters Symbols.is_defined Symbols.is_declared has_type
set_parameters-IsFiled parameters name s filed = ground arith

-- All but the symbols of types, which their definition marks as declared.
abbrev pub IsPlain : Details → Type 0
IsPlain (type_alias defined) = ⊥
IsPlain _ = Unit {0}

pub new_symbol-IsFiled :
    (name : String) (type : PrimaryType) (d : Details)
    → IsPlain d
    → IsFiled name (new_symbol name type d)
unfolding Symbols.is_defined Symbols.is_declared has_type
new_symbol-IsFiled name type variable p = ground arith
new_symbol-IsFiled name type (array size content) p = ground arith
new_symbol-IsFiled name type (function context variadic parameters) p = ground arith
new_symbol-IsFiled name type (type_alias defined) p = absurd p

pub new_type-IsFiled :
    (pointer : Option Node) (name : String) (type : PrimaryType)
    → IsFiled name (Symbols.add_definition pointer (new_type name type))
unfolding Symbols.add_definition Symbols.is_defined Symbols.is_declared has_type
new_type-IsFiled pointer name type = ground arith

-- The two ways in which an operation changes a chain.
pub data Change (t u : SymbolTable) : Type 0 where
  written : (name : String) (s : Symbol) → IsFiled name s → u ≡ put name s t → Change t u
  changed : (name : String) (f : Symbol → Symbol) → Keeps f → u ≡ modify name f t → Change t u

pub Change-IsValid : {t u : SymbolTable} → Change t u → IsValid t → IsValid u
Change-IsValid {t} (written name s filed e) v =
    subst (λ x. IsValid x) (sym e) (put-IsValid name s t filed v)
Change-IsValid {t} (changed name f keeps e) v =
    subst (λ x. IsValid x) (sym e) (modify-IsValid name f t keeps v)

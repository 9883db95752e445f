-- ===== src/Symbols.antt =====
-- src/ast/symboltable/Symbol.cpp and its subclasses (ArraySymbol, FunctionSymbol, TypeSymbol,
-- VariableSymbol), SymbolType.h and FunctionParameterSignature.h. A statement of the syntax tree
-- is named by its number; a weak pointer to one is an `Option`, since the tree outlives its
-- symbols. The fields that only one subclass has are those of a constructor of `Details`.
pub mod Laws
use caramel.Prelude.{
  ℕ, String, Bool, true, false, Option, none, some, List, [], ◌∷◌, ◌++◌, map, length, is_some,
  if◌then◌else◌,
}
use caramel.Types.{PrimaryType}

abbrev pub Node : Type 0
Node = ℕ

pub data SymbolType : Type 0 where
  function_symbol variable_symbol type_symbol array_symbol : SymbolType

pub record FunctionParameterSignature : Type 0 where
  pub name : String
  pub primary_type : PrimaryType
  pub symbol_type : SymbolType

-- `array size content`: `none` stands for a size or a content that is not defined.
-- `function context variadic parameters`, `type_alias defined`.
pub data Details : Type 0 where
  variable : Details
  array : Option ℕ → Option (List Node) → Details
  function : Option Node → Bool → List FunctionParameterSignature → Details
  type_alias : Bool → Details

pub record Symbol : Type 0 where
  pub name : String
  pub type : PrimaryType
  pub declaration : Option Node
  pub definition : Option Node
  pub occurrences : List Node
  pub details : Details

abbrev pub details_type : Details → SymbolType
details_type variable = variable_symbol
details_type (array size content) = array_symbol
details_type (function context variadic parameters) = function_symbol
details_type (type_alias defined) = type_symbol

abbrev pub symbol_type : Symbol → SymbolType
symbol_type s = details_type s.details

-- The constructors of `Symbol` and of its subclasses.
abbrev pub new_symbol : String → PrimaryType → Details → Symbol
new_symbol name type details = record {
  name = name;
  type = type;
  declaration = none;
  definition = none;
  occurrences = [];
  details = details;
}

abbrev pub new_variable : String → PrimaryType → Symbol
new_variable name type = new_symbol name type variable

abbrev pub new_array : String → PrimaryType → Symbol
new_array name type = new_symbol name type (array none none)

abbrev pub new_sized_array : String → PrimaryType → ℕ → Symbol
new_sized_array name type size = new_symbol name type (array (some size) none)

abbrev pub new_array_of : String → PrimaryType → List Node → Symbol
new_array_of name type content = new_symbol name type (array (some (length content)) (some content))

abbrev pub new_function : String → PrimaryType → Bool → Symbol
new_function name type variadic = new_symbol name type (function none variadic [])

abbrev pub new_type : String → PrimaryType → Symbol
new_type name type = new_symbol name type (type_alias false)

-- `isDeclared` and `isDefined`, which `TypeSymbol` overrides. The pointers are weak: `expire` below is what
-- the destruction of nodes does to them.
declared_by : Details → Option Node → Bool
declared_by (type_alias defined) pointer = defined
declared_by _ pointer = is_some pointer

unfoldable pub is_declared : Symbol → Bool
unfolding declared_by
is_declared s = declared_by s.details s.declaration

unfoldable pub is_defined : Symbol → Bool
unfolding declared_by
is_defined s = declared_by s.details s.definition

-- `onDeclaration` and `onDefinition`: only `TypeSymbol` does anything.
mark_defined : Details → Details
mark_defined (type_alias defined) = type_alias true
mark_defined details = details

-- The argument is `none` where the source passes a null pointer.
unfoldable pub add_declaration : Option Node → Symbol → Symbol
unfolding mark_defined
add_declaration node s = record s { declaration = node; details = mark_defined s.details }

unfoldable pub add_definition : Option Node → Symbol → Symbol
unfolding mark_defined is_declared
add_definition node s = record s {
  declaration = if is_declared s then s.declaration else node;
  definition = node;
  details = mark_defined s.details;
}

-- A weak pointer to a node that was destroyed counts no use: `use_count() > 0` is false of it, as of one
-- that was never set.
abbrev pub locked : (Node → Bool) → Option Node → Option Node
locked dead none = none
locked dead (some node) = if dead node then none else some node

unfoldable pub expire : (Node → Bool) → Symbol → Symbol
expire dead s = record s {
  declaration = locked dead s.declaration;
  definition = locked dead s.definition;
}

unfoldable pub add_usage : Node → Symbol → Symbol
add_usage node s = record s { occurrences = s.occurrences ++ node ∷ [] }

-- `FunctionSymbol::setContext` and `setParameters`; other symbols have neither.
with_context : Node → Details → Details
with_context c (function context variadic parameters) = function (some c) variadic parameters
with_context c details = details

unfoldable pub set_context : Node → Symbol → Symbol
unfolding with_context
set_context c s = record s { details = with_context c s.details }

with_parameters : List FunctionParameterSignature → Details → Details
with_parameters new (function context variadic parameters) = function context variadic new
with_parameters new details = details

unfoldable pub set_parameters : List FunctionParameterSignature → Symbol → Symbol
unfolding with_parameters
set_parameters new s = record s { details = with_parameters new s.details }

abbrev pub signature_of : Symbol → FunctionParameterSignature
signature_of s = record { name = s.name; primary_type = s.type; symbol_type = symbol_type s }

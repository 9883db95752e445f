-- ===== src/Visitor.antt =====
-- src/visitors/ASTVisitor.h: the state of the visitor of the parse tree, and what a visit may end in.
pub mod Expressions
pub mod Declarations
pub mod Statements
pub mod Root
pub mod Holds
pub mod Shapes
pub mod Matching
pub mod Trees
pub mod Conditions
pub mod Variables
pub mod Arrays
pub mod Functions
pub mod Lowered
pub mod Blocks
pub mod Programs
pub mod Reached
pub mod Refused
pub mod NoTypedefs
pub mod Depth
pub mod Typedefs
pub mod Doubling
pub mod Calls
pub mod Postfix
mod Tests
mod ExpressionTests
use caramel.Prelude.{
  ℕ, suc, String, Bool, true, false, Option, none, some, List, [], ◌∷◌, not, ◌&&◌, ltb, leb,
  if◌then◌else◌,
}
use caramel.Symbols.{Node, Symbol, SymbolType, type_symbol}
use caramel.Table.{SymbolTable, root, child, has_symbol, expire}
use caramel.Table.Errors.{
  Error, undefined_symbol, symbol_already_defined, symbol_already_declared, symbol_type_mismatch,
  type_mismatch, type_already_declared, function_name_already_declared, parameter_name_mismatch,
  parameter_type_mismatch, number_of_parameters_mismatch, arguments_number_mismatch,
  arguments_type_mismatch, parameter_already_defined, not_a_parameter, Result, ok, err, fatal,
}
use caramel.Table.Variables.{Added, require, has_type}

-- `table` is the table of the context on top of `mContextStack`, whose parents are those of the
-- contexts below; `nodes` counts the nodes of the syntax tree and the contexts that were made. `kept`
-- has, for each body of a function, the node before its first and its last: the context of the function,
-- which its symbol owns, holds its statements.
pub record State : Type 0 where
  pub table : SymbolTable
  pub nodes : ℕ
  pub error_count : ℕ
  pub kept : List (Node × Node)

-- A visit returns, throws a `SemanticError`, or stops the program: `exit`, a null pointer that is read,
-- or an exception that is not a `SemanticError` and that nothing catches. `thrown` has
-- the state in which the exception is thrown; the nodes that the visit owned are destroyed on its way to
-- the handler, where nothing reads the state, and `handled` says what that leaves.
pub data Outcome (A : Type 0) : Type 0 where
  done : A → State → Outcome A
  thrown : State → Outcome A
  stopped : Outcome A

abbrev pub Visit : Type 0 → Type 0
Visit A = State → Outcome A

abbrev pub then_ : {A B : Type 0} → Outcome A → (A → Visit B) → Outcome B
then_ (done a s) f = f a s
then_ (thrown s) f = thrown s
then_ stopped f = stopped

infixl 5 ◌>>=◌ ◌>>◌
unfoldable pub ◌>>=◌ : {A B : Type 0} → Visit A → (A → Visit B) → Visit B
v >>= f = λ s. then_ (v s) f

abbrev pub ◌>>◌ : {A B : Type 0} → Visit A → Visit B → Visit B
v >> w = v >>= λ _. w

abbrev pub pure : {A : Type 0} → A → Visit A
pure a s = done a s

abbrev pub stop : {A : Type 0} → Visit A
stop s = stopped

-- The constructor of a node, or of a context.
abbrev pub new_node : Visit Node
new_node s = done (suc s.nodes) (record s { nodes = suc s.nodes })

-- The node of the expression that was visited last: its constructor is the last that its visit calls.
abbrev pub last_node : Visit Node
last_node s = done s.nodes s

-- The classes derived from `SemanticError`. A mismatch with a null symbol reads it for its message.
unfoldable pub is_semantic : Error → Bool
is_semantic (undefined_symbol name) = true
is_semantic (symbol_already_defined name s) = true
is_semantic (symbol_already_declared name s) = true
is_semantic (symbol_type_mismatch name type none) = false
is_semantic (symbol_type_mismatch name type (some s)) = true
is_semantic (type_mismatch name type none) = false
is_semantic (type_mismatch name type (some s)) = true
is_semantic (type_already_declared name none) = false
is_semantic (type_already_declared name (some s)) = true
is_semantic (function_name_already_declared name s) = true
is_semantic (parameter_name_mismatch name p q) = true
is_semantic (parameter_type_mismatch name p q) = true
is_semantic (number_of_parameters_mismatch name n m) = true
is_semantic (arguments_number_mismatch name n m) = false
is_semantic (arguments_type_mismatch name n p q) = false
is_semantic (parameter_already_defined name) = false
is_semantic (not_a_parameter name) = false

abbrev pub finish : {A : Type 0} → State → Result (A × SymbolTable) → Outcome A
finish s (ok (a, t)) = done a (record s { table = t })
finish s (err e) = if is_semantic e then thrown s else stopped
finish s fatal = stopped

-- An operation on the table of the current context.
unfoldable pub on_table : {A : Type 0} → (SymbolTable → Result (A × SymbolTable)) → Visit A
unfolding is_semantic
on_table operation s = finish s (operation s.table)

-- The nodes that are destroyed when an exception leaves a visit that began at `start`: all that it made,
-- but for the statements of the bodies of functions.
unfoldable pub is_dead : Node → List (Node × Node) → Node → Bool
is_dead start [] node = ltb start node
is_dead start ((first, last) ∷ rest) node =
    is_dead start rest node && not (ltb first node && leb node last)

-- The handler of a `SemanticError`: the symbols' pointers to the destroyed nodes expire, and there is one
-- more error, and the value that stands where none came.
abbrev pub handled : {A : Type 0} → Node → A → Outcome A → Outcome A
handled start a (thrown s) =
    done a
      (record s { table = expire (is_dead start s.kept) s.table; error_count = suc s.error_count })
handled start a result = result

unfoldable pub catch : {A : Type 0} → A → Visit A → Visit A
catch a v s = handled s.nodes a (v s)

-- The context of a function takes the statements of its body.
abbrev pub keep : Node → Visit (Unit {0})
keep first s = done tt (record s { kept = (first, s.nodes) ∷ s.kept })

-- `ContextPusher`: the constructor, and the destructor, which runs when an exception passes as well.
abbrev pub pop : SymbolTable → SymbolTable
pop (root m) = root m
pop (child m parent) = parent

abbrev pub popped : State → State
popped s = record s { table = pop s.table }

abbrev pub left : {A : Type 0} → Outcome A → Outcome A
left (done a s) = done a (popped s)
left (thrown s) = thrown (popped s)
left stopped = stopped

unfoldable pub in_context : {A : Type 0} → Visit A → Visit A
in_context v s = left (v (record s { table = child [] s.table }))

-- `castTo<TypeSymbol::Ptr>`: a null pointer for a symbol of another class.
abbrev pub cast_to_type : Result Symbol → SymbolTable → Result (Option Symbol × SymbolTable)
cast_to_type (ok s) t = ok (if has_type type_symbol s then some s else none, t)
cast_to_type (err e) t = err e
cast_to_type fatal t = fatal

abbrev pub type_of_name : String → SymbolTable → Result (Option Symbol × SymbolTable)
type_of_name name t = if has_symbol name t then cast_to_type (require name t) t else fatal

unfoldable pub visit_type_parameter : String → Visit (Option Symbol)
unfolding on_table require has_type
visit_type_parameter name = on_table (type_of_name name)

-- A pointer that is read.
abbrev pub deref : {A : Type 0} → Option A → Visit A
deref none = stop
deref (some a) = pure a

-- ===== src/Lib.antt =====
-- Caramel compiles a language close to C to x86-64 assembly. This library models the parts of it that
-- decide whether a program is accepted and where its data lies, and proves what they promise.
--
-- The front-end (`src/ast`, filled by `src/visitors`) registers every name of a program in a symbol
-- table per scope. The back-end (`src/ir`) gives every symbol of a function a slot in its frame, lowers
-- statements to instructions of an intermediate representation, and writes each instruction as lines of
-- assembly. The front-end's types and symbols are those that the back-end places and moves.
--
-- - Types: `src/ast/symboltable/PrimaryType.h`. A class is a constructor; `getMemoryLength`,
--   `getIdentifier`, `max`, `equals`, `greaterThan` and `fits` are `memory_length`, `identifier`,
--   `max_type`, `equals`, `greater_than` and `fits`.
-- - Symbols: `src/ast/symboltable/Symbol.cpp` and the subclasses beside it. A symbol is a record whose
--   `details` are the fields of its subclass; `add_declaration`, `add_definition` and `add_usage` are
--   the methods of those names. A node of the syntax tree is its number.
-- - Table: `src/ast/symboltable/SymbolTable.cpp` and the exceptions of `src/exceptions`. The state is
--   the chain of tables from the current scope to the root. Table/Variables, Arrays, Functions and
--   TypeNames have one function for each method (`addVariableUsage` is `add_variable_usage`, and so on)
--   into `Result`: `err` for an exception, `fatal` for a message and `exit`. Table/Operations makes the
--   methods, and the entry to and the exit from a scope of `src/ast/context/Context.cpp`, the steps of
--   a relation `Reach`. Resolve, Usage, Access, Declaring, Parameters, Calls, Validity and Operations
--   have the proofs.
-- - Cfg: `src/ir/CFG.cpp`, the frames. The maps keyed by the number of a function are one function from
--   numbers to frames, and `addSymbol`, `addArraySymbol`, `addParamArraySymbol`, `enterFunction`,
--   `getSymbolIndex` and `getStackSize` are functions on it. Layout, ParamArrays, Arrays and Sizes have the
--   proofs.
-- - Ir: `src/ir/IR.cpp` and `src/ir/instructions`, an instruction with a constructor per subclass.
-- - X86: `src/ir/x86_64/X86_64IRVisitor.cpp`. A visit returns the lines that the source appends to its
--   stream. X86 has the operands, Move `prepareInstr` and the moves, Operators and Visit the visits.
--   Plain, Encodable, Moves and Fuel have the proofs.
-- - Blocks: `src/ir/BasicBlock.cpp`, `addInstruction`, which registers what an instruction returns in the
--   frame of its function. Assembly is `src/ir/x86_64/X86_64BasicBlockVisitor.cpp`, the lines of a block
--   with its label and jumps, and Order the recursive `generateAssembly` of
--   `src/ir/x86_64/X86_64CFGVisitor.cpp`, which orders the blocks of a function;
--   Program joins them over the functions. Registered, Assembly and
--   the children of Order have the proofs.
-- - Graph: `src/ir/CFG.cpp`, `src/ir/BasicBlock.cpp`, the control-flow graph under construction. A shared
--   pointer to a block is its number in a heap, and an operation is a function on the graph, `none` where
--   the program stops. Ensured is the proof rule for a sequence of operations; Extends says what a part
--   of the construction keeps; Operations, Chain and Exits prove it of the single operations.
-- - Code: `src/ast/statements` and `src/ast/operators`, the `getIR` and `getBasicBlock` of every class.
--   Operators, Assignments and Logic are the operators, Atoms the expressions, Statements the definitions
--   and jumps, Control the `if` and the loops, Functions the definition of a function and the constructor
--   of `CFG`. A node is the record of its virtual functions. Lowering has the proofs.
-- - Syntax: the classes of the syntax tree as data types, and the lowering of a whole tree, `value_of`,
--   `code_of` and `control_flow_graph`. Lowerable says which trees the lowering accepts, Tokens is the
--   look-up of operators by their tokens, and Programs, Nodes and Elements have the proofs.
-- - Parse: `src/grammar/Caramel_v9.g4`, the trees of the parser, a constructor per context class.
-- - Visitor: `src/visitors`. A visit is a function on the state of the visitor: the table of the current
--   context, which is the top of the stack, the count of nodes and the count of errors. It returns,
--   throws a `SemanticError`, or stops the program. A node lives as long as what owns it, and the
--   pointers of a symbol to nodes are weak: where an exception is caught, all nodes that the visit made
--   are destroyed and the pointers to them expire, but for the statements of the bodies of functions,
--   which the symbols of the functions own. Expressions is `ASTVisitor_Expression.cpp`;
--   Declarations is `ASTVisitor_Variables.cpp`, `ASTVisitor_Arrays.cpp` and the signatures of
--   `ASTVisitor_Functions.cpp`; Statements is `ASTVisitor.cpp` and `ASTVisitor_ControlBlock.cpp`; Root is
--   `visitR`, `src/FrontEnd.cpp` and `src/BackEnd.cpp`. A visit returns trees of Syntax, which the symbols
--   are part of. The flag `left_first` is the order in which the arguments of a constructor are
--   evaluated, which the language leaves open. Holds is the proof rule for a sequence of visits and an
--   invariant of the state; Shapes, Matching, Conditions and Lowered say what the visits return; Trees,
--   Variables, Arrays, Functions, Blocks and Programs prove it of each visit. Reached, Depth, Refused,
--   Typedefs, NoTypedefs, Calls, Postfix and Doubling have the properties of visits.
-- - Prelude: shared names, integers, association lists and decimal numbers.
--
-- The blocks that Graph, Code and Syntax build are those that Blocks orders and writes, in the frames of
-- Cfg and with the instructions of Ir. Visitor builds the trees that Syntax lowers, through the
-- operations of Table.
--
-- A `long` of the frames is an integer without bounds, since no frame comes near 2^63 bytes.
-- `writeMove` and `prepareInstr` are mutually recursive; the model has fuel for two calls, which is
-- as deep as they go. The traversal of the blocks has fuel for one call more than there are blocks,
-- which is enough. The statements of a body outlive the exception that destroys the definition of
-- their function, in the model even where a later definition replaces the symbol that owns them.
-- Reading a missing key of a map yields the default, as `operator[]` does; that it also inserts it
-- is written out where a later step can tell.
--
-- Not modelled: the ANTLR lexer and parser; the warnings on unused names; declarations and string
-- constants, which are lowered to nothing or refused;
-- the export to dot and PDF; the command line, the log and the text of messages; comments and layout in the
-- assembly.
pub mod Prelude
pub mod Types
pub mod Symbols
pub mod Table
pub mod Cfg
pub mod Ir
pub mod X86
pub mod Blocks
pub mod Graph
pub mod Code
pub mod Lowering
pub mod Syntax
pub mod Parse
pub mod Visitor

-- ===== src/Visitor/ExpressionTests.antt =====
-- Expressions that the visitor accepts, doubles, drops or stops at.
use caramel.Prelude.{true, false, some, [], ◌∷◌, ◌≡◌, inl, inr, refl}
use caramel.Parse.{
  Tree, postfix_unary_context, call_context, lvalue_context, array_access_context, no_tree,
}
use caramel.Syntax.{Expression, values_of, no_expression}
use caramel.Visitor.Postfix.{is_name_tree, visit_postfix-dropped}
use caramel.Visitor.Doubling.{nested, Occurs, visit_nested-Occurs}
use caramel.Visitor.Calls.{visit_call-stopped}
use caramel.Table.Calls.{Callable}
use caramel.Visitor.{State, done, stopped}
use caramel.Visitor.Expressions.{arguments_types, visit_expressions, visit_expression}
use caramel.Visitor.Root.{start_state}
use caramel.Table.{root, get_symbol, is_declared, is_defined}
use caramel.Table.Variables.{has_type}
use caramel.Symbols
use caramel.Symbols.{
  Symbol, variable_symbol, function_symbol, new_variable, new_array_of, new_function,
  add_declaration, add_definition, add_usage, set_context, set_parameters,
}
use caramel.Types.{int32_t, int8_t}
use caramel.Prelude.{lookup}
use caramel.Visitor.Tests.{name}

-- int32_t x; int32_t a[2]; int32_t f(int8_t n);
abbrev a_variable : Symbol
a_variable = Symbols.add_definition (some 1) (new_variable "x" int32_t)

abbrev an_array : Symbol
an_array = Symbols.add_definition (some 2) (new_array_of "a" int32_t (3 ∷ 4 ∷ []))

abbrev a_function : Symbol
a_function = Symbols.add_declaration (some 5) (
    set_parameters
      (record { name = "n"; primary_type = int8_t; symbol_type = variable_symbol } ∷ [])
      (new_function "f" int32_t false))

abbrev symbols : State
symbols = record start_state {
  table = root (("x", a_variable) ∷ ("a", an_array) ∷ ("f", a_function) ∷ []);
}

-- a[x]++
abbrev an_access : Tree
an_access = lvalue_context (array_access_context "a" (name "x"))

an_access-no_name : is_name_tree an_access ≡ false
unfolding is_name_tree
an_access-no_name = refl

visit_postfix-dropped_example :
    visit_expression true (postfix_unary_context (some "++") an_access) symbols
    ≡ visit_expression true an_access symbols
visit_postfix-dropped_example = visit_postfix-dropped true "++" an_access symbols an_access-no_name

x-Occurs : Occurs "x" 0 symbols
unfolding get_symbol lookup is_defined Symbols.is_defined Symbols.add_definition has_type
x-Occurs = record {
  symbol = a_variable;
  resolves = refl;
  defined = refl;
  usable = refl;
  occurs = refl;
}

-- ((x))
visit_nested-Occurs_example :
    (e : Expression) × (s' : State) × (visit_expression true (nested "x" 2) symbols ≡ done e s')
    × Occurs "x" 8 s'
visit_nested-Occurs_example = visit_nested-Occurs true "x" 2 0 symbols x-Occurs

no_arguments : visit_expressions true no_tree symbols ≡ done no_expression symbols
unfolding visit_expression
no_arguments = refl

f-declared : is_declared "f" symbols.table ≡ true
unfolding is_declared lookup Symbols.is_declared Symbols.add_declaration set_parameters
f-declared = refl

f-resolves : get_symbol "f" symbols.table ≡ some a_function
unfolding get_symbol lookup
f-resolves = refl

f-is_function : has_type function_symbol a_function ≡ true
unfolding has_type Symbols.add_declaration set_parameters
f-is_function = refl

f-takes_one : ¬ Callable (arguments_types no_expression) a_function
unfolding Symbols.add_declaration set_parameters values_of
f-takes_one (k, inl v) = absurd (cc (v))
f-takes_one (k, inr a) = a

-- f()
visit_call-stopped_example : visit_expression true (call_context "f" no_tree) symbols ≡ stopped
visit_call-stopped_example =
    visit_call-stopped true "f" no_tree symbols symbols no_expression a_function no_arguments
      f-declared f-resolves f-is_function f-takes_one

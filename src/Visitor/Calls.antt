-- ===== src/Visitor/Calls.antt =====
-- ASTVisitor_Expression.cpp, `visitAtomicExpression`: the call of a function with arguments that it does
-- not take.
use caramel.Prelude.{
  ℕ, suc, ◌==◌, ◌≡◌, ◌⊎◌, inl, inr, refl, String, Bool, true, false, some, List, [], ◌∷◌, length,
  arith, Bool-cases,
}
use caramel.Types.{PrimaryType, greater_than}
use caramel.Symbols.{Node, Symbol, FunctionParameterSignature, function_symbol}
use caramel.Table.{SymbolTable, get_symbol, is_declared}
use caramel.Table.Errors.{
  Error, arguments_number_mismatch, arguments_type_mismatch, Result, ok, err,
}
use caramel.Table.Variables.{require, has_type}
use caramel.Table.Functions.{
  check_arguments, match_arguments, add_function_call, parameters_of, is_variadic,
}
use caramel.Table.Calls.{Callable, match_arguments_iff}
use caramel.Parse.{Trees, call_context}
use caramel.Syntax.{Expressions}
use caramel.Visitor.{State, done, stopped, ◌>>=◌, is_semantic, on_table}
use caramel.Visitor.Expressions.{arguments_types, visit_call, visit_expression, visit_expressions}

-- An exception that is not caught.
abbrev Uncaught : {A : Type 0} → Result A → Type 0
Uncaught r = (e : Error) × (r ≡ err e) × (is_semantic e ≡ false)

check_arguments-Uncaught :
    (name : String) (i : ℕ) (ps : List FunctionParameterSignature) (arguments : List PrimaryType)
    → (check_arguments name i ps arguments ≡ ok tt) ⊎ Uncaught (check_arguments name i ps arguments)
unfolding check_arguments is_semantic
check_arguments-Uncaught name i (p ∷ ps) (a ∷ rest) =
    elim (Bool-cases (greater_than p.primary_type a)) [
      | inl g ↦ elim (check_arguments-Uncaught name (suc i) ps rest) [
        | inl c ↦ inl (ground (arith, c))
        | inr (e, raises, uncaught) ↦ inr (e, ground (arith, raises), uncaught)
      ]
      | inr g ↦ inr (arguments_type_mismatch name (suc i) p.primary_type a, ground arith, refl)
    ]
check_arguments-Uncaught name i [] arguments = inl refl
check_arguments-Uncaught name i (p ∷ ps) [] = inl refl

match_arguments-Uncaught :
    (name : String) (ps : List FunctionParameterSignature) (arguments : List PrimaryType)
    → (match_arguments name ps arguments ≡ ok tt) ⊎ Uncaught (match_arguments name ps arguments)
unfolding match_arguments is_semantic
match_arguments-Uncaught name ps arguments = elim (Bool-cases (length arguments == length ps)) [
  | inl g ↦ rw g (check_arguments-Uncaught name 0 ps arguments)
  | inr g ↦ inr (arguments_number_mismatch name (length ps) (length arguments), rw g refl, refl)
]

add_function_call-Uncaught :
    (name : String) (arguments : List PrimaryType) (node : Node) (t : SymbolTable) (s : Symbol)
    → is_declared name t ≡ true
    → get_symbol name t ≡ some s
    → has_type function_symbol s ≡ true
    → ¬ Callable arguments s
    → Uncaught (add_function_call name arguments node t)
unfolding add_function_call require
add_function_call-Uncaught name arguments node t s d g f c = elim (Bool-cases (is_variadic s)) [
  | inl v ↦ absurd (c (f, inl v))
  | inr v ↦ elim (match_arguments-Uncaught name (parameters_of s) arguments) [
    | inl m ↦ absurd (c (f, inr ((match_arguments_iff name (parameters_of s) arguments).0 m)))
    | inr (e, raises, uncaught) ↦ (e, ground (arith, raises), uncaught)
  ]
]

-- A call whose arguments are visited, of a name that resolves to a function, which is not variadic and
-- has not as many parameters, or has one that is narrower than its argument, ends the program: the
-- exception is not a `SemanticError`, and no handler takes it.
pub visit_call-stopped :
    (left_first : Bool) (name : String) (ts : Trees) (s s' : State) (es : Expressions) (f : Symbol)
    → visit_expressions left_first ts s ≡ done es s'
    → is_declared name s'.table ≡ true
    → get_symbol name s'.table ≡ some f
    → has_type function_symbol f ≡ true
    → ¬ Callable (arguments_types es) f
    → visit_expression left_first (call_context name ts) s ≡ stopped
unfolding visit_expression visit_call ◌>>=◌ on_table
visit_call-stopped left_first name ts s s' es f h d g k c =
    let (e, raises, uncaught) =
      add_function_call-Uncaught name (arguments_types es) (suc s'.nodes) s'.table f d g k c in
    rw (h, raises, uncaught)

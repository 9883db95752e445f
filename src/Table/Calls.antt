-- ===== src/Table/Calls.antt =====
-- SymbolTable.cpp: the checks on the parameters of a function that is declared again, and on the
-- arguments of a call.
use caramel.Prelude.{
  ℕ, suc, String, str_eq, eq_iff, ◌≡◌, refl, ◌↔◌, ◌⊎◌, inl, inr, true, some, List, [], ◌∷◌, length,
  arith, Bool-cases,
}
use caramel.Types.{PrimaryType, identifier, greater_than}
use caramel.Types.Laws.{equals-identifier, equals_iff}
use caramel.Symbols.{Node, Symbol, FunctionParameterSignature, function_symbol}
use caramel.Symbols
use caramel.Table.{SymbolTable, get_symbol, is_declared, modify}
use caramel.Table.Errors.{ok}
use caramel.Table.Variables.{has_type, require}
use caramel.Table.Functions.{
  check_parameters, match_parameters, check_arguments, match_arguments, add_function_call,
  parameters_of, is_variadic,
}

-- What two signatures must share: the name and the type of the parameter.
abbrev pub SameParameters :
    List FunctionParameterSignature → List FunctionParameterSignature → Type 0
SameParameters [] [] = Unit
SameParameters (p ∷ ps) (q ∷ qs) =
    (p.name ≡ q.name) × (p.primary_type ≡ q.primary_type) × SameParameters ps qs
SameParameters _ _ = ⊥

same_type :
    (p q : FunctionParameterSignature)
    → (str_eq (identifier p.primary_type) (identifier q.primary_type) ≡ true)
      ↔ (p.primary_type ≡ q.primary_type)
same_type p q =
    rw (equals-identifier p.primary_type q.primary_type) (equals_iff p.primary_type q.primary_type)

check_parameters_sound :
    (name : String) (ps qs : List FunctionParameterSignature)
    → length ps ≡ length qs
    → check_parameters name ps qs ≡ ok tt
    → SameParameters ps qs
unfolding check_parameters
check_parameters_sound name [] [] n h = tt
check_parameters_sound name (p ∷ ps) (q ∷ qs) n h = (
  ground (arith, eq_iff p.name q.name),
  ground (arith, same_type p q),
  check_parameters_sound name ps qs (omega arith) (ground arith),
)
check_parameters_sound name [] (q ∷ qs) n h = absurd (omega arith)
check_parameters_sound name (p ∷ ps) [] n h = absurd (omega arith)

check_parameters_complete :
    (name : String) (ps qs : List FunctionParameterSignature)
    → SameParameters ps qs
    → (length ps ≡ length qs) × (check_parameters name ps qs ≡ ok tt)
unfolding check_parameters
check_parameters_complete name [] [] h = (refl, refl)
check_parameters_complete name (p ∷ ps) (q ∷ qs) (n, t, h) =
    let (len, rest) = check_parameters_complete name ps qs h in
    (omega arith, ground (arith, eq_iff p.name q.name, same_type p q))
check_parameters_complete name [] (q ∷ qs) h = absurd h
check_parameters_complete name (p ∷ ps) [] h = absurd h

-- A second declaration, or a definition, of a declared function passes the check on its parameters
-- exactly when both lists have one length, and position by position the same names and types.
pub match_parameters_iff :
    (name : String) (declared given : List FunctionParameterSignature)
    → (match_parameters name declared given ≡ ok tt) ↔ SameParameters declared given
unfolding match_parameters
match_parameters_iff name declared given = (
  λ h. check_parameters_sound name declared given (ground arith) (ground arith),
  λ s. (let (n, c) = check_parameters_complete name declared given s in ground arith),
)

-- Every argument is at most as wide as its parameter.
abbrev pub Accepts : List FunctionParameterSignature → List PrimaryType → Type 0
Accepts [] [] = Unit
Accepts (p ∷ ps) (a ∷ rest) = (greater_than p.primary_type a ≡ true) × Accepts ps rest
Accepts _ _ = ⊥

check_arguments_sound :
    (name : String) (i : ℕ) (ps : List FunctionParameterSignature) (arguments : List PrimaryType)
    → length ps ≡ length arguments
    → check_arguments name i ps arguments ≡ ok tt
    → Accepts ps arguments
unfolding check_arguments
check_arguments_sound name i [] [] n h = tt
check_arguments_sound name i (p ∷ ps) (a ∷ rest) n h =
    (ground arith, check_arguments_sound name (suc i) ps rest (omega arith) (ground arith))
check_arguments_sound name i [] (a ∷ rest) n h = absurd (omega arith)
check_arguments_sound name i (p ∷ ps) [] n h = absurd (omega arith)

check_arguments_complete :
    (name : String) (i : ℕ) (ps : List FunctionParameterSignature) (arguments : List PrimaryType)
    → Accepts ps arguments
    → (length ps ≡ length arguments) × (check_arguments name i ps arguments ≡ ok tt)
unfolding check_arguments
check_arguments_complete name i [] [] h = (refl, refl)
check_arguments_complete name i (p ∷ ps) (a ∷ rest) (g, h) =
    let (len, r) = check_arguments_complete name (suc i) ps rest h in (omega arith, ground arith)
check_arguments_complete name i [] (a ∷ rest) h = absurd h
check_arguments_complete name i (p ∷ ps) [] h = absurd h

pub match_arguments_iff :
    (name : String) (ps : List FunctionParameterSignature) (arguments : List PrimaryType)
    → (match_arguments name ps arguments ≡ ok tt) ↔ Accepts ps arguments
unfolding match_arguments
match_arguments_iff name ps arguments = (
  λ h. check_arguments_sound name 0 ps arguments (ground arith) (ground arith),
  λ s. (let (n, c) = check_arguments_complete name 0 ps arguments s in ground arith),
)

-- What a call asks of the symbol that its name resolves to.
abbrev pub Callable : List PrimaryType → Symbol → Type 0
Callable arguments s =
    (has_type function_symbol s ≡ true)
    × ((is_variadic s ≡ true) ⊎ Accepts (parameters_of s) arguments)

-- A call passes exactly when its name is declared and resolves to a function that is variadic, or
-- that has as many parameters as there are arguments, each at least as wide as its argument. It then
-- adds its node to the occurrences of that symbol.
pub add_function_call_iff :
    (name : String) (arguments : List PrimaryType) (node : Node) (t : SymbolTable) (s : Symbol)
    → get_symbol name t ≡ some s
    → (add_function_call name arguments node t
        ≡ ok (Symbols.add_usage node s, modify name (Symbols.add_usage node) t))
      ↔ ((is_declared name t ≡ true) × Callable arguments s)
unfolding add_function_call require
add_function_call_iff name arguments node t s e = (
  λ h. (
    ground arith,
    (
      ground arith,
      elim (Bool-cases (is_variadic s)) [
        | inl v ↦ inl v
        | inr v ↦ inr ((match_arguments_iff name (parameters_of s) arguments).0 (ground arith))
      ],
    ),
  ),
  λ (d, c).
      (let accepted : (is_variadic s ≡ true)
            ⊎ (match_arguments name (parameters_of s) arguments ≡ ok tt) =
          elim c.1 [
            | inl v ↦ inl v
            | inr a ↦ inr ((match_arguments_iff name (parameters_of s) arguments).1 a)
          ] in
        ground arith),
)

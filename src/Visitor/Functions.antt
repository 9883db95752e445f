-- ===== src/Visitor/Functions.antt =====
-- ASTVisitor_Functions.cpp: what the visits of functions return, and what they keep.
use caramel.Prelude.{
  ℕ, suc, if◌then◌else◌, subst, ◌≡◌, refl, ap, ◌∙◌, Bool, true, false, String, List, [], ◌∷◌, arith,
}
use caramel.Symbols.{Symbol, Node, FunctionParameterSignature}
use caramel.Table.{SymbolMap, SymbolTable, root, child}
use caramel.Table.Errors.{Result, ok, err, fatal}
use caramel.Table.Operations.{
  declare_function, define_function, add_parameter, define_parameter, Operation, run, table_of,
  Within, here, above,
}
use caramel.Table.Variables.{Added, under}
use caramel.Table.Functions.{
  parameters_of, add_function_definition, add_function_declaration, add_function_parameter,
}
use caramel.Parse.{FunctionArgument, FunctionInner}
use caramel.Syntax.Lowerable.{can_lower, can_lower_program}
use caramel.Visitor.{State, Visit, stop}
use caramel.Visitor.Holds.{
  Holds, IsKept, IsNested, operated, ◌>>=◌, pure_lem, stop_lem, new_node-Holds, last_node-Holds,
  keep-Holds, in_context-Holds, on_table-Holds, operation-Holds, Anything, deref-Holds,
}
use caramel.Visitor.Declarations.{
  Item, function, visit_function_argument, visit_function_arguments, at_root,
  visit_function_declaration, at_parent, add_parameters, define_parameters,
}
use caramel.Visitor.Root.{functions_of}
use caramel.Visitor.Conditions.{LowersItems, all_sized_arrays}
use caramel.Visitor.Variables.{declaration-LowersItems, visit_type_parameter-Holds}
use caramel.Visitor.Statements.{
  statements_of, is_root, visit_function_body, visit_function_definition,
}

under-inverse :
    (m : SymbolMap) (r : Result Added) {s : Symbol} {u : SymbolTable}
    → under (child m) r ≡ ok (s, u)
    → (p : SymbolTable) × (r ≡ ok (s, p)) × (child m p ≡ u)
under-inverse m (ok (s, p)) h = (p, ground (arith), ground (arith))
under-inverse m (err e) h = absurd (cc (h))
under-inverse m fatal h = absurd (cc (h))

module _ (f : SymbolTable → Result Added) (op : Operation)
    (same : (t : SymbolTable) → run op t ≡ table_of (f t)) where
  run-Within : (t : SymbolTable) {s : Symbol} {u : SymbolTable} → f t ≡ ok (s, u) → Within op t u
  run-Within t h = here (same t ∙ ap (λ r. table_of r) h)

  at_root-Within :
      (t : SymbolTable) {s : Symbol} {u : SymbolTable} → at_root f t ≡ ok (s, u) → Within op t u
  unfolding at_root
  at_root-Within (root m) h = run-Within (root m) h
  at_root-Within (child m parent) h =
      let (p, e, q) = under-inverse m (at_root f parent) h in
      subst (λ v. Within op (child m parent) v) q (above (at_root-Within parent e))

  at_parent-Within :
      (t : SymbolTable) {s : Symbol} {u : SymbolTable} → at_parent f t ≡ ok (s, u) → Within op t u
  unfolding at_parent
  at_parent-Within (root m) h = absurd (cc (h))
  at_parent-Within (child m parent) h =
      let (p, e, q) = under-inverse m (f parent) h in
      subst (λ v. Within op (child m parent) v) q (above (run-Within parent e))

module _ {I : State → Type 0} (k : IsKept I) where
  visit_function_argument-Holds :
      (a : FunctionArgument) → Holds I Anything (visit_function_argument a)
  unfolding visit_function_argument
  visit_function_argument-Holds a = visit_type_parameter-Holds k a.type >>= λ type _.
      deref-Holds {P = Anything} type (λ _ _. tt) >>= λ q _. pure_lem tt

  visit_function_arguments-Holds :
      (as_ : List FunctionArgument) → Holds I Anything (visit_function_arguments as_)
  unfolding visit_function_arguments
  visit_function_arguments-Holds [] = pure_lem tt
  visit_function_arguments-Holds (a ∷ rest) = visit_function_argument-Holds a >>= λ p _.
      visit_function_arguments-Holds rest >>= λ ps _. pure_lem tt

  pub visit_function_declaration-Holds :
      {p : Bool → Bool} (inner : FunctionInner)
      → Holds I (LowersItems p) (visit_function_declaration inner)
  unfolding visit_function_declaration run
  visit_function_declaration-Holds inner = visit_type_parameter-Holds k inner.type >>= λ type _.
      deref-Holds {P = Anything} type (λ _ _. tt) >>= λ q _.
      visit_function_arguments-Holds inner.arguments >>= λ parameters _.
      new_node-Holds k >>= λ node _.
      on_table-Holds k {P = Anything} (λ t s u e. (
        operated (declare_function q.type inner.name parameters node false) (
            at_root-Within (add_function_declaration q.type inner.name parameters node false)
              (declare_function q.type inner.name parameters node false) (λ _. refl) t e),
        tt,
      ))
      >>= λ _ _. pure_lem declaration-LowersItems

  add_parameters-Holds :
      (ps : List FunctionParameterSignature) → Holds I Anything (add_parameters ps)
  unfolding add_parameters run
  add_parameters-Holds [] = pure_lem tt
  add_parameters-Holds (p ∷ ps) =
      operation-Holds k (add_function_parameter p.name p.primary_type p.symbol_type)
        (add_parameter p.name p.primary_type p.symbol_type) (λ t. refl)
      >>= λ s _. add_parameters-Holds ps >>= λ rest _. pure_lem tt

  define_parameters-Holds :
      (node : Node) (ss : List Symbol) → Holds I Anything (define_parameters node ss)
  unfolding define_parameters run
  define_parameters-Holds node [] = pure_lem tt
  define_parameters-Holds node (s ∷ rest) =
      on_table-Holds k {P = Anything}
        (λ t a u e. (operated (define_parameter s.name node) (here (ground (arith))), tt))
      >>= λ _ _. define_parameters-Holds node rest

  function-LowersItems :
      {p : Bool → Bool} (name : String) (parameters : List FunctionParameterSignature)
      (items : List Item)
      → LowersItems p items
      → LowersItems
          (λ _. p false)
          (function (record { name = name; parameters = parameters; body = statements_of items })
            ∷ [])
  unfolding can_lower can_lower_program statements_of functions_of all_sized_arrays
  function-LowersItems name parameters items l = record {
    body = λ _ _ _. refl;
    functions = λ inside s a. ground (arith, l.body false s (ground arith));
  }

  visit_function_body-Holds :
      {p : Bool → Bool} (inner : FunctionInner) {v : Visit (List Item)}
      → Holds I (LowersItems p) v
      → Holds I (LowersItems (λ _. p false)) (visit_function_body inner v)
  unfolding visit_function_body run
  visit_function_body-Holds {p} inner h = new_node-Holds k >>= λ context _.
      visit_type_parameter-Holds k inner.type >>= λ type _.
      deref-Holds {P = Anything} type (λ _ _. tt) >>= λ q _.
      visit_function_arguments-Holds inner.arguments >>= λ parameters _.
      add_parameters-Holds parameters >>= λ symbols _. new_node-Holds k >>= λ node _.
      on_table-Holds k {P = Anything} (λ t s u e. (
        operated (define_function context q.type inner.name symbols node false) (
            at_parent-Within (add_function_definition context q.type inner.name symbols node false)
              (define_function context q.type inner.name symbols node false) (λ _. refl) t e),
        tt,
      ))
      >>= λ f _. define_parameters-Holds node symbols >>= λ _ _. last_node-Holds >>= λ first _.
          h >>= λ items l. keep-Holds k first >>= λ _ _.
          pure_lem (function-LowersItems {p = p} f.name (parameters_of f) items l)

  root_only-Holds :
      {P : List Item → Type 0} {v : Visit (List Item)} (b : Bool)
      → Holds I P v
      → Holds I P (if b then v else stop)
  root_only-Holds true h = h
  root_only-Holds false h = stop_lem

module _ {I : ℕ → State → Type 0} (k : IsNested I) (d : ℕ) where
  pub visit_function_definition-Holds :
      {p : Bool → Bool} (inner : FunctionInner) {v : Visit (List Item)}
      → Holds (I (suc d)) (LowersItems p) v
      → Holds (I d) (LowersItems (λ _. p false)) (visit_function_definition inner v)
  unfolding visit_function_definition
  visit_function_definition-Holds {p} inner h = record {
    holds = λ s i.
        (in_context-Holds k d (
            root_only-Holds (k.kept (suc d)) (is_root s.table)
              (visit_function_body-Holds (k.kept (suc d)) {p = p} inner h))).holds
          s i;
  }

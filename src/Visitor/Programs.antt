-- ===== src/Visitor/Programs.antt =====
-- The front end and the construction of the control-flow graph together.
use caramel.Prelude.{
  ℕ, ◌≡◌, refl, ◌==◌, Bool, true, false, ◌&&◌, not, Bool-cases, subst, ap, inl, inr, none, some,
  List, [], ◌∷◌, arith,
}
use caramel.Types.{PrimaryType, identifier}
use caramel.Table.{SymbolTable}
use caramel.Table.Errors.{Result, ok, err, fatal}
use caramel.Table.Operations.{declare_type, declare_function, run, here}
use caramel.Table.Functions.{add_function_declaration}
use caramel.Parse.{instruction_context, declaration_context, instruction_separator}
use caramel.Parse
use caramel.Graph.{Graph}
use caramel.Graph.Extends.{IsValid}
use caramel.Syntax.Programs.{control_flow_graph-IsValid}
use caramel.Visitor.{State, Outcome, done, thrown, stopped}
use caramel.Visitor.Holds.{
  Post, returned, Holds, IsKept, IsNested, operated, Anything, ◌>>=◌, pure_lem, weaken,
  new_node-Holds, on_table-Holds, operation-Holds,
}
use caramel.Visitor.Declarations.{Item}
use caramel.Visitor.Statements.{visit_statement, visit_statements}
use caramel.Visitor.Root.{
  no_result, add_primary_types, PreludeFunction, primary_types, prelude_functions, declare_prelude,
  start_state, visit_r, accepted, front_end, functions_of, build,
}
use caramel.Visitor.Conditions.{
  is_sound_instruction, is_sound_declaration, is_sound_statement, are_sound_statements,
  all_sized_arrays, LowersItems, no_item-LowersItems, weaker-LowersItems,
}
use caramel.Visitor.Blocks.{
  visit_instruction-Holds, visit_declaration-Holds, both-Holds, one_item-Holds, caught-Holds,
}
use caramel.Visitor.Lowered.{both_true, true_both}

no_result-ok :
    (r : Result SymbolTable) {a : Unit {0}} {u : SymbolTable} → no_result r ≡ ok (a, u) → r ≡ ok u
no_result-ok (ok t) h = ground (arith)
no_result-ok (err e) h = absurd (cc (h))
no_result-ok fatal h = absurd (cc (h))

outside_loop : (p : Bool → Bool) (inside : Bool) → (p false && not inside) ≡ true → p inside ≡ true
outside_loop p false h = (both_true (p false) true h).0
outside_loop p true h = absurd (cc ((both_true (p false) false h).1))

each_of :
    (a b inside : Bool)
    → ((a && b) && not inside) ≡ true
    → ((a && not inside) ≡ true) × ((b && not inside) ≡ true)
each_of a b inside h = ground arith

module _ {I : State → Type 0} (k : IsKept I) where
  pub add_primary_types-Holds : (ts : List PrimaryType) → Holds I Anything (add_primary_types ts)
  unfolding add_primary_types run
  add_primary_types-Holds [] = pure_lem tt
  add_primary_types-Holds (type ∷ rest) =
      on_table-Holds k {P = Anything}
        (λ t a u e. (operated (declare_type type (identifier type)) (here (no_result-ok _ e)), tt))
      >>= λ _ _. add_primary_types-Holds rest

  pub declare_prelude-Holds : (fs : List PreludeFunction) → Holds I Anything (declare_prelude fs)
  unfolding declare_prelude run
  declare_prelude-Holds [] = pure_lem tt
  declare_prelude-Holds ((type, name, parameters, variadic) ∷ rest) = new_node-Holds k >>= λ node _.
      operation-Holds k (add_function_declaration type name parameters node variadic)
        (declare_function type name parameters node variadic) (λ t. refl)
      >>= λ _ _. declare_prelude-Holds rest

module _ {I : ℕ → State → Type 0} (k : IsNested I) (left_first : Bool) (d : ℕ) where
  pub visit_statement-Holds :
      (s : Parse.Statement)
      → Holds
          (I d)
          (LowersItems (λ inside. is_sound_statement s && not inside))
          (visit_statement left_first s)
  unfolding visit_statement is_sound_statement
  visit_statement-Holds (instruction_context i) =
      weaken (one_item-Holds (k.kept d) (visit_instruction-Holds k left_first d i))
        (λ items l. weaker-LowersItems (outside_loop (λ inside. is_sound_instruction inside i)) l)
  visit_statement-Holds (declaration_context c) =
      weaken (visit_declaration-Holds k left_first d c)
        (λ items l. weaker-LowersItems (outside_loop (λ _. is_sound_declaration c)) l)
  visit_statement-Holds instruction_separator = pure_lem no_item-LowersItems

  pub visit_statements-Holds :
      (ss : List Parse.Statement)
      → Holds
          (I d)
          (LowersItems (λ inside. are_sound_statements ss && not inside))
          (visit_statements left_first ss)
  unfolding visit_statements are_sound_statements
  visit_statements-Holds [] = pure_lem no_item-LowersItems
  visit_statements-Holds (s ∷ ss) =
      both-Holds (k.kept d)
        (λ inside h. each_of (is_sound_statement s) (are_sound_statements ss) inside h)
        (caught-Holds (k.kept d) (visit_statement-Holds s)) (visit_statements-Holds ss)

  pub visit_r-Holds :
      (ss : List Parse.Statement)
      → Holds
          (I d)
          (LowersItems (λ inside. are_sound_statements ss && not inside))
          (visit_r left_first ss)
  unfolding visit_r
  visit_r-Holds ss = new_node-Holds (k.kept d) >>= λ _ _.
      add_primary_types-Holds (k.kept d) primary_types >>= λ _ _.
      declare_prelude-Holds (k.kept d) prelude_functions >>= λ _ _.
      caught-Holds (k.kept d) (visit_statements-Holds ss)

-- The weakest invariant.
abbrev nothing-IsNested : IsNested (λ _ _. Unit {0})
nothing-IsNested = record {
  kept = λ _. record {
    counts_nodes = λ _ _. tt;
    counts_errors = λ _ _. tt;
    destroys = λ _ _ _. tt;
    keeps = λ _ _ _. tt;
    moves = λ _ _ _ _. tt;
  };
  enters = λ _ _ _. tt;
  leaves = λ _ _ _. tt;
}

accepted-done :
    {P : List Item → Type 0} {I : State → Type 0} (r : Outcome (List Item)) {items : List Item}
    → Post P I r
    → accepted r ≡ some items
    → P items
accepted-done {P} (done given s) (returned p i) h = elim (Bool-cases (s.error_count == 0)) [
  | inl e ↦ subst P (some-injective (rw e at h)) p
  | inr e ↦ absurd (cc (rw e at h))
]
  where
    some-injective : {x y : List Item} → some x ≡ some y → x ≡ y
    some-injective {x = x} e = ap (λ z. elim z [ some a ↦ a | none ↦ x ]) e
accepted-done (thrown s) q h = absurd (cc (h))
accepted-done stopped q h = absurd (cc (h))

-- What the front end accepts of a program in which every `break` stands in a loop, `++`, `--` and the
-- operators that assign stand beside an identifier or an element of an array, and a `for` with blocks
-- for its condition has some for its initialisation, whatever the order in which arguments are
-- evaluated: if every array that it returns in a function has a content, a type of some size and some
-- elements, then the construction of the control-flow graph does not fail, and every exit of a block of
-- it, and every root, is one of its blocks.
pub build-IsValid :
    (left_first : Bool) (ss : List Parse.Statement) (items : List Item)
    → are_sound_statements ss ≡ true
    → front_end left_first ss ≡ some items
    → all_sized_arrays (functions_of items) ≡ true
    → (g : Graph) × (build left_first ss ≡ some g) × IsValid g
unfolding front_end build
build-IsValid left_first ss items sound accepts sized =
    let l =
      accepted-done (visit_r left_first ss start_state)
        ((visit_r-Holds nothing-IsNested left_first 0 ss).holds start_state tt) accepts in
    let (g, e, v) =
      control_flow_graph-IsValid (functions_of items)
        (l.functions false (true_both sound refl) sized) in
    (g, rw accepts e, v)

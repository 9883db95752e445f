-- ===== src/Visitor/Variables.antt =====
-- ASTVisitor_Variables.cpp, ASTVisitor_Arrays.cpp, ASTVisitor_Functions.cpp: what the visits of
-- declarations return, and what they keep.
use caramel.Prelude.{
  subst, Bool-cases, inl, inr, ◌≡◌, refl, Bool, true, Option, none, some, String, List, [], ◌∷◌,
  arith,
}
use caramel.Types.{PrimaryType}
use caramel.Symbols.{Symbol}
use caramel.Table.{SymbolTable, has_symbol}
use caramel.Table.Errors.{Result, ok, err, fatal}
use caramel.Table.Operations.{
  declare_variable, define_variable as define_variable_op, alias_type, run,
}
use caramel.Table.Variables.{require, add_variable_declaration, add_variable_definition}
use caramel.Table.TypeNames.{add_type}
use caramel.Parse.{Tree}
use caramel.Syntax.{Expression, variable_definition, declaration}
use caramel.Syntax.Lowerable.{can_lower, is_lowerable_optional}
use caramel.Visitor.{State, cast_to_type, type_of_name, visit_type_parameter}
use caramel.Visitor.Holds.{
  Holds, IsKept, Moved, unmoved, ◌>>=◌, pure_lem, new_node-Holds, on_table-Holds, operation-Holds,
  Anything, deref-Holds,
}
use caramel.Visitor.Declarations.{
  statement, visit_type_definition, declare_variables, visit_variable_declaration, define_variable,
  define_variables, define_assigned, visit_variable_definition,
}
use caramel.Visitor.Shapes.{is_sound}
use caramel.Visitor.Trees.{visit_expression-Holds}
use caramel.Visitor.Conditions.{
  LowersItems, no_item-LowersItems, one-LowersItems, append-LowersItems, are_sound_values,
}

pub declaration-LowersItems : {p : Bool → Bool} → LowersItems p (statement declaration ∷ [])
unfolding can_lower
declaration-LowersItems = one-LowersItems (record { lowers = λ _ _ _. refl })

variable-LowersItems :
    {p : Bool → Bool} (name : String) (type : PrimaryType) (init : Option Expression)
    → ((inside : Bool) → p inside ≡ true → is_lowerable_optional init ≡ true)
    → LowersItems p (statement (variable_definition name type init) ∷ [])
unfolding can_lower
variable-LowersItems name type init h =
    one-LowersItems (record { lowers = λ inside s _. h inside s })

cast_to_type-same :
    (r : Result Symbol) (t : SymbolTable) {a : Option Symbol} {u : SymbolTable}
    → cast_to_type r t ≡ ok (a, u)
    → t ≡ u
cast_to_type-same (ok s) t h = ground (arith)
cast_to_type-same (err e) t h = absurd (cc (h))
cast_to_type-same fatal t h = absurd (cc (h))

type_of_name-same :
    (name : String) (t : SymbolTable) {a : Option Symbol} {u : SymbolTable}
    → type_of_name name t ≡ ok (a, u)
    → t ≡ u
type_of_name-same name t h = elim (Bool-cases (has_symbol name t)) [
  | inl e ↦ cast_to_type-same (require name t) t (rw e at h)
  | inr e ↦ absurd (cc (rw e at h))
]

module _ {I : State → Type 0} (k : IsKept I) where
  pub visit_type_parameter-Holds : (name : String) → Holds I Anything (visit_type_parameter name)
  unfolding visit_type_parameter
  visit_type_parameter-Holds name =
      on_table-Holds k
        (λ t a u e. (subst (λ v. Moved t v) (type_of_name-same name t e) unmoved, tt))

  pub visit_type_definition-Holds :
      {p : Bool → Bool} (primary alias : String)
      → Holds I (LowersItems p) (visit_type_definition primary alias)
  unfolding visit_type_definition run
  visit_type_definition-Holds primary alias = visit_type_parameter-Holds primary >>= λ found _.
      visit_type_parameter-Holds alias >>= λ other _.
      deref-Holds {P = Anything} other (λ _ _. tt) >>= λ a _. new_node-Holds k >>= λ node _.
      deref-Holds {P = Anything} found (λ _ _. tt) >>= λ q _.
      operation-Holds k (add_type a.name q.type node) (alias_type a.name q.type node) (λ t. refl)
      >>= λ _ _. pure_lem declaration-LowersItems

  declare_variables-Holds :
      {p : Bool → Bool} (type : Option Symbol) (names : List String)
      → Holds I (LowersItems p) (declare_variables type names)
  unfolding declare_variables run
  declare_variables-Holds type [] = pure_lem no_item-LowersItems
  declare_variables-Holds {p = p} type (name ∷ names) =
      deref-Holds {P = Anything} type (λ _ _. tt) >>= λ q _. new_node-Holds k >>= λ node _.
      operation-Holds k (add_variable_declaration q.type name node)
        (declare_variable q.type name node) (λ t. refl)
      >>= λ _ _. declare_variables-Holds {p = p} type names >>= λ rest l. pure_lem (
          append-LowersItems (statement declaration ∷ []) rest (λ inside s. (s, s))
            declaration-LowersItems l)

  define_variable-Holds :
      {p : Bool → Bool} (type : Option Symbol) (name : String) (value : Option Expression)
      → ((inside : Bool) → p inside ≡ true → is_lowerable_optional value ≡ true)
      → Holds I (λ i. LowersItems p (i ∷ [])) (define_variable type name value)
  unfolding define_variable run
  define_variable-Holds type name value h = new_node-Holds k >>= λ node _.
      deref-Holds {P = Anything} type (λ _ _. tt) >>= λ q _.
      operation-Holds k (add_variable_definition q.type name node)
        (define_variable_op q.type name node) (λ t. refl)
      >>= λ s _. pure_lem (variable-LowersItems s.name s.type value h)

  define_variables-Holds :
      {p : Bool → Bool} (type : Option Symbol) (names : List String)
      → Holds I (LowersItems p) (define_variables type names)
  unfolding define_variables is_lowerable_optional
  define_variables-Holds type [] = pure_lem no_item-LowersItems
  define_variables-Holds {p = p} type (name ∷ names) =
      define_variable-Holds {p = p} type name none (λ _ _. refl) >>= λ i l.
      define_variables-Holds {p = p} type names >>= λ rest m.
      pure_lem (append-LowersItems (i ∷ []) rest (λ inside s. (s, s)) l m)

  module _ (left_first : Bool) where
    define_assigned-Holds :
        (type : Option Symbol) (assigned : List (String × Tree))
        → Holds I
            (LowersItems (λ _. are_sound_values assigned))
            (define_assigned left_first type assigned)
    unfolding define_assigned are_sound_values is_lowerable_optional
    define_assigned-Holds type [] = pure_lem no_item-LowersItems
    define_assigned-Holds type ((name, t) ∷ rest) = visit_expression-Holds k left_first t >>= λ e m.
        define_variable-Holds {p = λ _. is_sound t} type name (some e) (λ _ s. m.lowers s)
        >>= λ i l. define_assigned-Holds type rest >>= λ others n.
            pure_lem (append-LowersItems (i ∷ []) others (λ _ s. ground (arith)) l n)

    pub visit_variable_definition-Holds :
        (type : String) (names : List String) (assigned : List (String × Tree))
        → Holds I
            (LowersItems (λ _. are_sound_values assigned))
            (visit_variable_definition left_first type names assigned)
    unfolding visit_variable_definition
    visit_variable_definition-Holds type names assigned =
        visit_type_parameter-Holds type >>= λ found _.
        define_variables-Holds {p = λ _. true} found names >>= λ items l.
        define_assigned-Holds found assigned >>= λ others m.
        pure_lem (append-LowersItems items others (λ _ s. (refl, s)) l m)

  pub visit_variable_declaration-Holds :
      {p : Bool → Bool} (type : String) (names : List String)
      → Holds I (LowersItems p) (visit_variable_declaration type names)
  unfolding visit_variable_declaration
  visit_variable_declaration-Holds type names =
      visit_type_parameter-Holds type >>= λ found _. declare_variables-Holds found names

-- ===== src/Visitor/NoTypedefs.antt =====
-- The front end on a program with a definition of a type.
use caramel.Prelude.{◌≡◌, refl, ◌⊎◌, inl, inr, String, Bool, none, List, [], ◌∷◌, ◌++◌}
use caramel.Parse.{declaration_context, type_definition_context}
use caramel.Parse
use caramel.Table.Operations.{Reach, start}
use caramel.Visitor.{State, Outcome, done, thrown, stopped, Visit, then_, ◌>>=◌, catch}
use caramel.Visitor.Holds.{Post, returned, raised, ended, Anything, handled-Post, weaken}
use caramel.Visitor.Declarations.{Item, visit_type_definition}
use caramel.Visitor.Statements.{both, visit_declaration, visit_statement, visit_statements}
use caramel.Visitor.Programs.{visit_statement-Holds, add_primary_types-Holds, declare_prelude-Holds}
use caramel.Visitor.Root.{visit_r, primary_types, prelude_functions, accepted, front_end}
use caramel.Visitor.Reached.{reached-IsNested}
use caramel.Visitor.Refused.{
  Counted, Returns, HasError-IsNested, accepted-HasError, handled-Returns, append-Counted,
  Fails-Counted,
}
use caramel.Visitor.Typedefs.{visit_type_definition-refused}

abbrev type_definition : String → String → Parse.Statement
type_definition primary alias = declaration_context (type_definition_context primary alias)

abbrev Reached : State → Type 0
Reached s = Reach s.table

outcome_cases :
    {A : Type 0} (r : Outcome A)
    → ((a : A) × (s : State) × (r ≡ done a s)) ⊎ (((s : State) × (r ≡ thrown s)) ⊎ (r ≡ stopped))
outcome_cases (done a s) = inl (a, s, refl)
outcome_cases (thrown s) = inr (inl (s, refl))
outcome_cases stopped = inr (inr refl)

then_-Counted :
    {P : List Item → Type 0} {J : State → Type 0} {r : Outcome (List Item)}
    {f : List Item → Visit (List Item)}
    → Returns r
    → Post P J r
    → ((items : List Item) (s : State) → J s → Counted (f items s))
    → Counted (then_ r f)
then_-Counted q (returned p i) h = h _ _ i
then_-Counted q (raised i) h = absurd (q _ refl)
then_-Counted q ended h = ended

-- A sequence whose first part keeps an invariant from which the second is refused.
then_-refused :
    {A : Type 0} {P : A → Type 0} {J : State → Type 0} {r : Outcome A} (f : A → Visit (List Item))
    → Post P J r
    → ((a : A) (s : State) → J s → accepted (f a s) ≡ none)
    → accepted (then_ r f) ≡ none
then_-refused f (returned p i) h = h _ _ i
then_-refused f (raised i) h = refl
then_-refused f ended h = refl

module _ (left_first : Bool) (primary alias : String) (after : List Parse.Statement) where
  type_definition-Counted :
      (s : State)
      → Reached s
      → Counted (visit_statements left_first (type_definition primary alias ∷ after) s)
  unfolding visit_statements visit_statement visit_declaration both ◌>>=◌ catch
  type_definition-Counted s r = elim (outcome_cases (visit_type_definition primary alias s)) [
    | inl (items, t, e) ↦ absurd (visit_type_definition-refused primary alias s t items r e)
    | inr (inl (t, e)) ↦
        Fails-Counted left_first (type_definition primary alias) after s (inl (t, e))
    | inr (inr e) ↦ rw e ended
  ]

  visit_statements-Counted :
      (before : List Parse.Statement) (s : State)
      → Reached s
      → Counted (visit_statements left_first (before ++ type_definition primary alias ∷ after) s)
  unfolding visit_statements both ◌>>=◌ catch
  visit_statements-Counted [] s r = type_definition-Counted s r
  visit_statements-Counted (b ∷ bs) s r =
      let visited : Post Anything Reached (visit_statement left_first b s) =
        (weaken (visit_statement-Holds reached-IsNested left_first 0 b) (λ _ _. tt)).holds s r in
      then_-Counted (handled-Returns s.nodes [] (visit_statement left_first b s))
        (handled-Post (reached-IsNested.kept 0) s.nodes [] tt visited)
        (λ items t r'. append-Counted items (visit_statements-Counted bs t r'))

-- No program with a definition of a type among its root statements is accepted, whatever stands before it
-- and after it.
pub front_end-type_definition :
    (left_first : Bool) (before after : List Parse.Statement) (primary alias : String)
    → front_end left_first
        (before ++ declaration_context (type_definition_context primary alias) ∷ after)
      ≡ none
unfolding front_end visit_r ◌>>=◌ catch
front_end-type_definition left_first before after primary alias =
    then_-refused _
      ((add_primary_types-Holds (reached-IsNested.kept 0) primary_types).holds _ start)
      (λ _ t r.
        then_-refused _
          ((declare_prelude-Holds (reached-IsNested.kept 0) prelude_functions).holds t r)
          (λ _ u r'. accepted-HasError {P = Anything} _ (
            handled-Post (HasError-IsNested.kept 0) u.nodes [] tt
              (visit_statements-Counted left_first primary alias after before u r'))))

-- ===== src/Visitor/Postfix.antt =====
-- ASTVisitor_Expression.cpp, `visitPostfixUnaryExpression`: what a postfix operator is applied to.
use caramel.Prelude.{◌≡◌, refl, Bool, true, false, Option, none, some, String}
use caramel.Parse.{
  Tree, single_child, comma_context, assignment_context, binary_context, prefix_unary_context,
  postfix_unary_context, call_context, lvalue_context, number_context, char_context,
  parentheses_context, identifier_context, array_access_context,
}
use caramel.Syntax.{
  BinaryOperator, Expression, constant, identifier, array_access, binary, unary, call, comma,
  Expressions, no_expression, expressions,
}
use caramel.Visitor.{
  State, Outcome, done, thrown, stopped, Visit, then_, new_node, ◌>>=◌ as ◌followed_by◌, deref,
}
use caramel.Visitor.Holds.{
  Post, returned, raised, ended, Holds, ◌>>=◌, pure_lem, stop_lem, Anything,
}
use caramel.Visitor.Expressions.{
  in_order, visit_number_constant, visit_char_constant, visit_array_access, visit_call,
  visit_binary, visit_prefix, visit_comma, comma_of, visit_lvalue, apply_postfix, visit_expression,
}

-- A tree that may be visited to an identifier: a name, with parentheses around it or none.
unfoldable pub is_name_tree : Tree → Bool
is_name_tree (single_child t) = is_name_tree t
is_name_tree (prefix_unary_context none t) = is_name_tree t
is_name_tree (postfix_unary_context none t) = is_name_tree t
is_name_tree (lvalue_context (identifier_context name)) = true
is_name_tree (parentheses_context t) = is_name_tree t
is_name_tree _ = false

abbrev is_name : Expression → Bool
is_name (identifier name type content) = true
is_name _ = false

abbrev NoName : Expression → Type 0
NoName e = is_name e ≡ false

abbrev Any : State → Type 0
Any _ = Unit {0}

outcome-Any : {A : Type 0} (r : Outcome A) → Post Anything Any r
outcome-Any (done a s) = returned tt tt
outcome-Any (thrown s) = raised tt
outcome-Any stopped = ended

visit-Any : {A : Type 0} (v : Visit A) → Holds Any Anything v
visit-Any v = record { holds = λ s i. outcome-Any (v s) }

comma_of-NoName : (es : Expressions) → Holds Any NoName (comma_of es)
comma_of-NoName no_expression = stop_lem
comma_of-NoName (expressions e es) = pure_lem refl

apply_postfix-NoName :
    (token : String) (e : Expression) → Holds Any NoName (apply_postfix (some token) e)
unfolding apply_postfix
apply_postfix-NoName token (identifier name type content) =
    visit-Any _ >>= λ o _. visit-Any _ >>= λ _ _. pure_lem refl
apply_postfix-NoName token (constant z) = pure_lem refl
apply_postfix-NoName token (array_access x type i) = pure_lem refl
apply_postfix-NoName token (binary o l r) = pure_lem refl
apply_postfix-NoName token (unary o l) = pure_lem refl
apply_postfix-NoName token (call x type v es) = pure_lem refl
apply_postfix-NoName token (comma es) = pure_lem refl

apply_postfix-none :
    (token : String) (e : Expression) (s : State)
    → NoName e
    → apply_postfix (some token) e s ≡ done e s
unfolding apply_postfix
apply_postfix-none token (identifier name type content) s h = absurd (cc (h))
apply_postfix-none token (constant z) s h = refl
apply_postfix-none token (array_access x type i) s h = refl
apply_postfix-none token (binary o l r) s h = refl
apply_postfix-none token (unary o l) s h = refl
apply_postfix-none token (call x type v es) s h = refl
apply_postfix-none token (comma es) s h = refl

dropped :
    (token : String) (r : Outcome Expression)
    → Post NoName Any r
    → then_ r (apply_postfix (some token)) ≡ r
dropped token (done e s) (returned p i) = apply_postfix-none token e s p
dropped token (thrown s) p = refl
dropped token stopped p = refl

module _ (left_first : Bool) where
  visit_binary-NoName :
      (found : Option BinaryOperator) (u v : Visit Expression)
      → Holds Any NoName (visit_binary left_first found u v)
  unfolding visit_binary
  visit_binary-NoName found u v =
      visit-Any (in_order left_first u (deref found) v) >>= λ (l, o, r) _.
      visit-Any new_node >>= λ _ _. pure_lem refl

  visit_expression-NoName :
      (t : Tree) → is_name_tree t ≡ false → Holds Any NoName (visit_expression left_first t)
  unfolding visit_expression visit_lvalue visit_prefix visit_comma visit_call visit_array_access
      visit_number_constant visit_char_constant is_name_tree apply_postfix
  visit_expression-NoName (single_child t) h = visit_expression-NoName t h
  visit_expression-NoName (comma_context ts) h =
      visit-Any _ >>= λ es _. visit-Any _ >>= λ _ _. comma_of-NoName es
  visit_expression-NoName (assignment_context l token t) h = visit_binary-NoName _ _ _
  visit_expression-NoName (binary_context rule token t u) h = visit_binary-NoName _ _ _
  visit_expression-NoName (prefix_unary_context none t) h =
      visit-Any _ >>= λ _ _. visit_expression-NoName t h
  visit_expression-NoName (prefix_unary_context (some token) t) h = visit-Any _ >>= λ _ _.
      visit-Any _ >>= λ _ _. visit-Any _ >>= λ _ _. visit-Any _ >>= λ _ _. pure_lem refl
  visit_expression-NoName (postfix_unary_context none t) h =
      (visit_expression-NoName t h) >>= λ e p. pure_lem p
  visit_expression-NoName (postfix_unary_context (some token) t) h =
      visit-Any _ >>= λ e _. apply_postfix-NoName token e
  visit_expression-NoName (call_context x ts) h =
      visit-Any _ >>= λ _ _. visit-Any _ >>= λ _ _. visit-Any _ >>= λ _ _. pure_lem refl
  visit_expression-NoName (lvalue_context (identifier_context x)) h = absurd (cc (h))
  visit_expression-NoName (lvalue_context (array_access_context x t)) h =
      visit-Any _ >>= λ _ _. visit-Any _ >>= λ _ _. visit-Any _ >>= λ _ _. pure_lem refl
  visit_expression-NoName (number_context negative n) h =
      visit-Any _ >>= λ _ _. visit-Any _ >>= λ _ _. pure_lem refl
  visit_expression-NoName (char_context text) h =
      visit-Any _ >>= λ _ _. visit-Any _ >>= λ _ _. pure_lem refl
  visit_expression-NoName (parentheses_context t) h = visit_expression-NoName t h

  -- A `++` or a `--` after a tree that is not a name, with parentheses or none, has no effect: an element
  -- of an array, for one, is visited to the same outcome with it and without it.
  pub visit_postfix-dropped :
      (token : String) (t : Tree) (s : State)
      → is_name_tree t ≡ false
      → visit_expression left_first (postfix_unary_context (some token) t) s
        ≡ visit_expression left_first t s
  unfolding visit_expression ◌followed_by◌
  visit_postfix-dropped token t s h =
      dropped token (visit_expression left_first t s) ((visit_expression-NoName t h).holds s tt)

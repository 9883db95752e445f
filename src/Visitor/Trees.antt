-- ===== src/Visitor/Trees.antt =====
-- ASTVisitor_Expression.cpp: what the visits of expressions return, and what they keep.
use caramel.Prelude.{ℕ, ◌≡◌, refl, Bool, true, false, Option, none, some, String, List}
use caramel.Table.Operations.{use_variable, access_array, call_function, run}
use caramel.Table.Variables.{add_variable_usage}
use caramel.Table.Arrays.{add_array_access}
use caramel.Table.Functions.{add_function_call}
use caramel.Parse.{
  Tree, single_child, comma_context, assignment_context, binary_context, prefix_unary_context,
  postfix_unary_context, call_context, lvalue_context, number_context, char_context,
  parentheses_context, Lvalue, identifier_context, array_access_context, Trees, no_tree, trees,
}
use caramel.Syntax.{
  BinaryOperator, Expression, constant, identifier, array_access, binary, unary, call, comma,
  Expressions, no_expression, expressions,
}
use caramel.Syntax.Tokens.{get_op_for_token}
use caramel.Visitor.{State, Visit}
use caramel.Visitor.Holds.{
  Holds, IsKept, ◌>>=◌, pure_lem, stop_lem, weaken, new_node-Holds, operation-Holds, Anything,
  deref-Holds,
}
use caramel.Visitor.Expressions.{
  find_binary_op, in_order, visit_number_constant, visit_char_constant, visit_identifier,
  visit_array_access, visit_call, visit_binary, visit_prefix, apply_postfix, visit_comma, comma_of,
  visit_expression, visit_lvalue, visit_expressions,
}
use caramel.Visitor.Shapes.{Matches, MatchesLvalue, MatchAll}
use caramel.Visitor.Matching.{
  number-Matches, char-Matches, single-Matches, parentheses-Matches, lvalue-Matches,
  identifier-MatchesLvalue, array_access-MatchesLvalue, call-Matches, comma-Matches, binary-Matches,
  assignment-Matches, prefix-Matches, prefix_none-Matches, postfix_one-Matches, postfix-Matches,
  no_tree-MatchAll, more-MatchAll,
}

module _ {I : State → Type 0} where
  in_order-Holds :
      {A B C : Type 0} {P : A → Type 0} {Q : B → Type 0} {R : C → Type 0} (left_first : Bool)
      {u : Visit A} {v : Visit B} {w : Visit C}
      → Holds I P u
      → Holds I Q v
      → Holds I R w
      → Holds I (λ (a, b, c). P a × Q b × R c) (in_order left_first u v w)
  unfolding in_order
  in_order-Holds true u v w = u >>= λ a p. v >>= λ b q. w >>= λ c r. pure_lem (p, q, r)
  in_order-Holds false u v w = w >>= λ c r. v >>= λ b q. u >>= λ a p. pure_lem (p, q, r)

module _ {I : State → Type 0} (k : IsKept I) where
  visit_binary-Holds :
      {P Q : Expression → Type 0} (left_first : Bool) (found : Option BinaryOperator)
      {u v : Visit Expression}
      → Holds I P u
      → Holds I Q v
      → Holds I
          (λ e.
            (o : BinaryOperator) × (l r : Expression) × (e ≡ binary o l r)
            × (found ≡ some o)
            × P l
            × Q r)
          (visit_binary left_first found u v)
  unfolding visit_binary
  visit_binary-Holds left_first found u v =
      in_order-Holds left_first u (deref-Holds found (λ a h. h)) v >>= λ (l, o, r) (p, h, q).
      new_node-Holds k >>= λ _ _. pure_lem (o, l, r, refl, h, p, q)

  visit_number-Holds :
      (negative : Bool) (n : ℕ)
      → Holds I (Matches (number_context negative n)) (visit_number_constant negative n)
  unfolding visit_number_constant
  visit_number-Holds negative n = deref-Holds {P = Anything} _ (λ _ _. tt) >>= λ z _.
      new_node-Holds k >>= λ _ _. pure_lem (number-Matches negative n z)

  visit_char-Holds :
      (text : List ℕ) → Holds I (Matches (char_context text)) (visit_char_constant text)
  unfolding visit_char_constant
  visit_char-Holds text = deref-Holds {P = Anything} _ (λ _ _. tt) >>= λ c _.
      new_node-Holds k >>= λ _ _. pure_lem (char-Matches text _)

  visit_identifier-Holds :
      (x : String) → Holds I (MatchesLvalue (identifier_context x)) (visit_identifier x)
  unfolding visit_identifier run
  visit_identifier-Holds x = new_node-Holds k >>= λ node _.
      operation-Holds k (add_variable_usage x node) (use_variable x node) (λ t. refl) >>= λ s _.
      pure_lem (identifier-MatchesLvalue x _ _ _)

  visit_array_access-Holds :
      (x : String) {t : Tree} {v : Visit Expression}
      → Holds I (Matches t) v
      → Holds I (MatchesLvalue (array_access_context x t)) (visit_array_access x v)
  unfolding visit_array_access run
  visit_array_access-Holds x h = h >>= λ index m. new_node-Holds k >>= λ node _.
      operation-Holds k (add_array_access x node) (access_array x node) (λ t. refl) >>= λ s _.
      pure_lem (array_access-MatchesLvalue x _ _ m)

  visit_call-Holds :
      (x : String) {ts : Trees} {v : Visit Expressions}
      → Holds I (MatchAll ts) v
      → Holds I (Matches (call_context x ts)) (visit_call x v)
  unfolding visit_call run
  visit_call-Holds x {ts} h = h >>= λ es m. new_node-Holds k >>= λ node _.
      operation-Holds k (add_function_call x _ node) (call_function x _ node) (λ t. refl) >>= λ s _.
      pure_lem (call-Matches x _ _ _ {ts = ts} {es = es} m)

  visit_prefix-Holds :
      (token : Option String) {t : Tree} {v : Visit Expression}
      → Holds I (Matches t) v
      → Holds I (Matches (prefix_unary_context token t)) (visit_prefix token v)
  unfolding visit_prefix
  visit_prefix-Holds none h = h >>= λ _ _. weaken h (λ e m. prefix_none-Matches m)
  visit_prefix-Holds (some token) h = h >>= λ _ _. h >>= λ e m. deref-Holds _ (λ o p. p) >>= λ o p.
      new_node-Holds k >>= λ _ _. pure_lem (prefix-Matches token o p m)

  apply_postfix-Holds :
      (token : Option String) {t : Tree} (e : Expression)
      → Matches t e
      → Holds I (Matches (postfix_unary_context token t)) (apply_postfix token e)
  unfolding apply_postfix
  apply_postfix-Holds (some token) (identifier name type content) m =
      deref-Holds {P = Anything} _ (λ _ _. tt) >>= λ o _.
      new_node-Holds k >>= λ _ _. pure_lem (postfix_one-Matches token o name type content m)
  apply_postfix-Holds none e m = pure_lem (postfix-Matches none m)
  apply_postfix-Holds (some token) (constant z) m = pure_lem (postfix-Matches (some token) m)
  apply_postfix-Holds (some token) (array_access x type i) m =
      pure_lem (postfix-Matches (some token) m)
  apply_postfix-Holds (some token) (binary o l r) m = pure_lem (postfix-Matches (some token) m)
  apply_postfix-Holds (some token) (unary o l) m = pure_lem (postfix-Matches (some token) m)
  apply_postfix-Holds (some token) (call x type v es) m = pure_lem (postfix-Matches (some token) m)
  apply_postfix-Holds (some token) (comma es) m = pure_lem (postfix-Matches (some token) m)

  comma_of-Holds :
      {ts : Trees} (es : Expressions)
      → MatchAll ts es
      → Holds I (Matches (comma_context ts)) (comma_of es)
  comma_of-Holds no_expression m = stop_lem
  comma_of-Holds (expressions e es) m = pure_lem (comma-Matches e es m)

  module _ (left_first : Bool) where
    mutual
      unfolding visit_expression visit_comma

      pub visit_expression-Holds : (t : Tree) → Holds I (Matches t) (visit_expression left_first t)
      visit_expression-Holds (single_child t) =
          weaken (visit_expression-Holds t) (λ e m. single-Matches m)
      visit_expression-Holds (comma_context ts) =
          visit_expressions-Holds ts >>= λ es m. new_node-Holds k >>= λ _ _. comma_of-Holds es m
      visit_expression-Holds (assignment_context l token t) =
          weaken
            (visit_binary-Holds left_first (get_op_for_token token) (visit_lvalue-Holds l)
              (visit_expression-Holds t))
            (λ e (o, x, y, same, h, p, q). rw same (assignment-Matches token o h p q))
      visit_expression-Holds (binary_context rule token t u) =
          weaken
            (visit_binary-Holds left_first (find_binary_op rule token) (visit_expression-Holds t)
              (visit_expression-Holds u))
            (λ e (o, x, y, same, h, p, q). rw same (binary-Matches rule token o h p q))
      visit_expression-Holds (prefix_unary_context token t) =
          visit_prefix-Holds token (visit_expression-Holds t)
      visit_expression-Holds (postfix_unary_context token t) =
          visit_expression-Holds t >>= λ e m. apply_postfix-Holds token e m
      visit_expression-Holds (call_context x ts) = visit_call-Holds x (visit_expressions-Holds ts)
      visit_expression-Holds (lvalue_context l) =
          weaken (visit_lvalue-Holds l) (λ e m. lvalue-Matches m)
      visit_expression-Holds (number_context negative n) = visit_number-Holds negative n
      visit_expression-Holds (char_context text) = visit_char-Holds text
      visit_expression-Holds (parentheses_context t) =
          weaken (visit_expression-Holds t) (λ e m. parentheses-Matches m)

      pub visit_lvalue-Holds : (l : Lvalue) → Holds I (MatchesLvalue l) (visit_lvalue left_first l)
      visit_lvalue-Holds (identifier_context x) = visit_identifier-Holds x
      visit_lvalue-Holds (array_access_context x t) =
          visit_array_access-Holds x (visit_expression-Holds t)

      pub visit_expressions-Holds :
          (ts : Trees) → Holds I (MatchAll ts) (visit_expressions left_first ts)
      visit_expressions-Holds no_tree = pure_lem (λ _. no_tree-MatchAll)
      visit_expressions-Holds (trees t ts) = visit_expression-Holds t >>= λ e m.
          visit_expressions-Holds ts >>= λ es n. pure_lem (more-MatchAll ts es m n)

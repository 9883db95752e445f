-- ===== src/Visitor/Shapes.antt =====
-- src/visitors: what the visitor's checks leave open on a parse tree, and the lowering needs.
use caramel.Prelude.{◌≡◌, Bool, true, false, ◌&&◌, ◌||◌, not, Option, none, some}
use caramel.Parse.{
  Tree, single_child, comma_context, assignment_context, binary_context, prefix_unary_context,
  postfix_unary_context, call_context, lvalue_context, number_context, char_context,
  parentheses_context, Lvalue, identifier_context, array_access_context, Trees, no_tree, trees,
}
use caramel.Syntax.{BinaryOperator, conjunction, disjunction, Expression, Expressions}
use caramel.Syntax.Lowerable.{assigns, updates, is_lvalue, is_logic, is_lowerable, are_lowerable}
use caramel.Syntax.Tokens.{get_op_for_token, get_prefix_op_for_token}
use caramel.Visitor.Expressions.{find_binary_op}

abbrev pub holds_of : {A : Type 0} → (A → Bool) → Option A → Bool
holds_of test none = false
holds_of test (some a) = test a

unfoldable pub is_logic_operator : BinaryOperator → Bool
is_logic_operator conjunction = true
is_logic_operator disjunction = true
is_logic_operator _ = false

-- A tree that is visited to an expression of blocks.
unfoldable pub is_logic_tree : Tree → Bool
unfolding is_logic_operator find_binary_op get_op_for_token
is_logic_tree (single_child t) = is_logic_tree t
is_logic_tree (assignment_context l token t) = holds_of is_logic_operator (get_op_for_token token)
is_logic_tree (binary_context rule token t u) =
    holds_of is_logic_operator (find_binary_op rule token)
is_logic_tree (prefix_unary_context none t) = is_logic_tree t
is_logic_tree (postfix_unary_context token t) = is_logic_tree t
is_logic_tree (parentheses_context t) = is_logic_tree t
is_logic_tree _ = false

-- A tree that is visited to an identifier or an element of an array.
unfoldable pub is_lvalue_tree : Tree → Bool
is_lvalue_tree (single_child t) = is_lvalue_tree t
is_lvalue_tree (prefix_unary_context none t) = is_lvalue_tree t
is_lvalue_tree (postfix_unary_context none t) = is_lvalue_tree t
is_lvalue_tree (lvalue_context l) = true
is_lvalue_tree (parentheses_context t) = is_lvalue_tree t
is_lvalue_tree _ = false

-- `++` and `--` stand before an identifier or an element of an array, and so does an operator that
-- assigns, which the grammar sees to.
unfoldable mutual
  unfolding is_lvalue_tree assigns updates find_binary_op get_prefix_op_for_token

  pub is_sound : Tree → Bool
  is_sound (single_child t) = is_sound t
  is_sound (comma_context ts) = are_sound ts
  is_sound (assignment_context l token t) = is_sound_lvalue l && is_sound t
  is_sound (binary_context rule token t u) =
      (not (holds_of assigns (find_binary_op rule token)) || is_lvalue_tree t)
      && (is_sound t && is_sound u)
  is_sound (prefix_unary_context none t) = is_sound t
  is_sound (prefix_unary_context (some token) t) =
      (not (holds_of updates (get_prefix_op_for_token token)) || is_lvalue_tree t) && is_sound t
  is_sound (postfix_unary_context token t) = is_sound t
  is_sound (call_context name ts) = are_sound ts
  is_sound (lvalue_context l) = is_sound_lvalue l
  is_sound (number_context minus n) = true
  is_sound (char_context text) = true
  is_sound (parentheses_context t) = is_sound t

  pub is_sound_lvalue : Lvalue → Bool
  is_sound_lvalue (identifier_context name) = true
  is_sound_lvalue (array_access_context name t) = is_sound t

  pub are_sound : Trees → Bool
  are_sound no_tree = true
  are_sound (trees t ts) = is_sound t && are_sound ts

-- The expression that a tree is visited to.
pub record Matches (t : Tree) (e : Expression) : Type 0 where
  pub lowers : is_sound t ≡ true → is_lowerable e ≡ true
  pub logic : is_logic e ≡ is_logic_tree t
  pub lvalue : is_lvalue_tree t ≡ true → is_lvalue e ≡ true

pub record MatchesLvalue (l : Lvalue) (e : Expression) : Type 0 where
  pub lowers : is_sound_lvalue l ≡ true → is_lowerable e ≡ true
  pub no_logic : is_logic e ≡ false
  pub is_one : is_lvalue e ≡ true

abbrev pub MatchAll : Trees → Expressions → Type 0
MatchAll ts es = are_sound ts ≡ true → are_lowerable es ≡ true

-- ===== src/Visitor/Expressions.antt =====
-- ASTVisitor_Expression.cpp: the expressions.
use Prim.Native.Nat.{◌^◌, ◌-◌}
use caramel.Prelude.{
  ℕ, ◌==◌, ltb, leb, String, Bool, true, false, Option, none, some, List, [], ◌∷◌, map, is_some,
  if◌then◌else◌,
}
use caramel.Prelude.Int.{ℤ, pos, negsuc}
use caramel.Types.{PrimaryType}
use caramel.Symbols.{Details, array}
use caramel.Table.Variables.{add_variable_usage}
use caramel.Table.Arrays.{add_array_access}
use caramel.Table.Functions.{add_function_call, is_variadic}
use caramel.Parse.{
  Rule, and_bitwise_expression, xor_bitwise_expression, or_bitwise_expression, conjunction,
  disjunction, Tree, single_child, comma_context, assignment_context, binary_context,
  prefix_unary_context, postfix_unary_context, call_context, lvalue_context, number_context,
  char_context, parentheses_context, Lvalue, identifier_context, array_access_context, Trees,
  no_tree, trees,
}
use caramel.Syntax.{
  BinaryOperator, Expression, constant, identifier, array_access, binary, unary, call, comma,
  Expressions, no_expression, expressions, values_of,
}
use caramel.Syntax.Tokens.{get_op_for_token, get_prefix_op_for_token, get_postfix_op_for_token}
use caramel.Code.{Value}
use caramel.Visitor.{Visit, ◌>>=◌, ◌>>◌, pure, stop, new_node, on_table, deref}

-- `FIND_BINARY_OP` of the operator, or the operator of the rule.
unfoldable pub find_binary_op : Rule → String → Option BinaryOperator
find_binary_op and_bitwise_expression token = get_op_for_token "&"
find_binary_op or_bitwise_expression token = get_op_for_token "|"
find_binary_op xor_bitwise_expression token = get_op_for_token "^"
find_binary_op conjunction token = get_op_for_token "&&"
find_binary_op disjunction token = get_op_for_token "||"
find_binary_op _ token = get_op_for_token token

-- The arguments of a constructor, of which a compiler may evaluate the last or the first one first.
unfoldable pub in_order : {A B C : Type 0} → Bool → Visit A → Visit B → Visit C → Visit (A × B × C)
in_order true u v w = do a ← u; b ← v; c ← w; pure (a, b, c)
in_order false u v w = do c ← w; b ← v; a ← u; pure (a, b, c)

-- `std::stoll`, which throws `std::out_of_range`.
unfoldable pub stoll : Bool → ℕ → Option ℤ
stoll false n = if ltb n (2 ^ 63) then some (pos n) else none
stoll true n =
    if n == 0 then some (pos 0) else if leb n (2 ^ 63) then some (negsuc (n - 1)) else none

unfoldable pub visit_number_constant : Bool → ℕ → Visit Expression
visit_number_constant minus n = do number ← deref (stoll minus n); new_node; pure (constant number)

-- The bytes between a backslash and the end of the token.
unfoldable pub unescaped : List ℕ → ℕ
unescaped (c ∷ quote ∷ []) =
    if c == b'n'
    then 10
    else if c == b'r'
    then 13
    else if c == b't'
    then 9
    else if c == b'0'
    then 0
    else if c == b'\''
    then b'\''
    else if c == b'"'
    then b'"'
    else b'\\'
unescaped _ = b'\\'

-- `text.at(1)`, which throws `std::out_of_range`, and a `char`, which has a sign.
unfoldable pub char_value : List ℕ → Option ℕ
char_value (quote ∷ c ∷ rest) = some (if c == b'\\' then unescaped rest else c)
char_value _ = none

abbrev signed_char : ℕ → ℤ
signed_char c = if ltb c 128 then pos c else negsuc (255 - c)

unfoldable pub visit_char_constant : List ℕ → Visit Expression
visit_char_constant text = do c ← deref (char_value text); new_node; pure (constant (signed_char c))

-- The use of a symbol; for an array, whether its content is defined.
abbrev pub content_flag : Details → Option Bool
content_flag (array size content) = some (is_some content)
content_flag _ = none

unfoldable pub visit_identifier : String → Visit Expression
visit_identifier name = do
  node ← new_node
  s ← on_table (add_variable_usage name node)
  pure (identifier s.name s.type (content_flag s.details))

unfoldable pub visit_array_access : String → Visit Expression → Visit Expression
visit_array_access name visit_index = do
  index ← visit_index
  node ← new_node
  s ← on_table (add_array_access name node)
  pure (array_access s.name s.type index)

-- `getArgumentsPrimaryTypes`
abbrev pub arguments_types : Expressions → List PrimaryType
arguments_types es = map (λ (v : Value). v.type) (values_of es)

unfoldable pub visit_call : String → Visit Expressions → Visit Expression
visit_call name visit_arguments = do
  arguments ← visit_arguments
  node ← new_node
  s ← on_table (add_function_call name (arguments_types arguments) node)
  pure (call s.name s.type (is_variadic s) arguments)

unfoldable pub visit_binary :
    Bool → Option BinaryOperator → Visit Expression → Visit Expression → Visit Expression
visit_binary left_first found visit_left visit_right = do
  (left, operator, right) ← in_order left_first visit_left (deref found) visit_right
  new_node
  pure (binary operator left right)

-- The operand is visited before it is known whether there is an operator, and then once more. The
-- constructor of `UnaryExpression` reads the pointer to the operator.
unfoldable pub visit_prefix : Option String → Visit Expression → Visit Expression
visit_prefix none visit_operand = do visit_operand; visit_operand
visit_prefix (some token) visit_operand = do
  visit_operand
  operand ← visit_operand
  operator ← deref (get_prefix_op_for_token token)
  new_node
  pure (unary operator operand)

-- An operator after what is not an identifier is dropped.
unfoldable pub apply_postfix : Option String → Expression → Visit Expression
apply_postfix (some token) (identifier name type content) = do
  operator ← deref (get_postfix_op_for_token token)
  new_node
  pure (unary operator (identifier name type content))
apply_postfix operator e = pure e

-- The constructor of `CommaExpression`, which exits on an empty list.
abbrev pub comma_of : Expressions → Visit Expression
comma_of no_expression = stop
comma_of (expressions e es) = pure (comma (expressions e es))

unfoldable pub visit_comma : Visit Expressions → Visit Expression
visit_comma visit_all = do es ← visit_all; new_node; comma_of es

module _ (left_first : Bool) where
  unfoldable mutual
    pub visit_expression : Tree → Visit Expression
    visit_expression (single_child t) = visit_expression t
    visit_expression (comma_context ts) = visit_comma (visit_expressions ts)
    visit_expression (assignment_context l token t) =
        visit_binary left_first (get_op_for_token token) (visit_lvalue l) (visit_expression t)
    visit_expression (binary_context rule token t u) =
        visit_binary left_first (find_binary_op rule token) (visit_expression t)
          (visit_expression u)
    visit_expression (prefix_unary_context token t) = visit_prefix token (visit_expression t)
    visit_expression (postfix_unary_context token t) = do
      e ← visit_expression t
      apply_postfix token e
    visit_expression (call_context name ts) = visit_call name (visit_expressions ts)
    visit_expression (lvalue_context l) = visit_lvalue l
    visit_expression (number_context minus n) = visit_number_constant minus n
    visit_expression (char_context text) = visit_char_constant text
    visit_expression (parentheses_context t) = visit_expression t

    pub visit_lvalue : Lvalue → Visit Expression
    visit_lvalue (identifier_context name) = visit_identifier name
    visit_lvalue (array_access_context name t) = visit_array_access name (visit_expression t)

    pub visit_expressions : Trees → Visit Expressions
    visit_expressions no_tree = pure no_expression
    visit_expressions (trees t ts) = do
      e ← visit_expression t
      es ← visit_expressions ts
      pure (expressions e es)

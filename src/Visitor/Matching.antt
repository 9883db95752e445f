-- ===== src/Visitor/Matching.antt =====
-- ASTVisitor_Expression.cpp: the expressions that the parts of a tree are visited to, put together.
use caramel.Prelude.{ℕ, ◌≡◌, refl, Bool, true, ◌||◌, not, Option, none, some, String, List, arith}
use caramel.Prelude.Int.{ℤ}
use caramel.Types.{PrimaryType}
use caramel.Parse.{
  Rule, Tree, single_child, comma_context, assignment_context, binary_context, prefix_unary_context,
  postfix_unary_context, call_context, lvalue_context, number_context, char_context,
  parentheses_context, Lvalue, identifier_context, array_access_context, Trees, trees,
}
use caramel.Syntax.{
  BinaryOperator, UnaryOperator, Expression, constant, identifier, array_access, binary, unary,
  call, comma, Expressions, no_expression, expressions,
}
use caramel.Syntax.Lowerable.{
  assigns, updates, is_lvalue, is_logic, is_lowerable, are_lowerable, is_empty,
}
use caramel.Syntax.Tokens.{get_op_for_token, get_prefix_op_for_token}
use caramel.Visitor.Expressions.{find_binary_op}
use caramel.Visitor.Shapes.{
  is_logic_operator, is_logic_tree, is_lvalue_tree, is_sound, Matches, MatchesLvalue, MatchAll,
}

binary-is_logic :
    (o : BinaryOperator) (e f : Expression) → is_logic (binary o e f) ≡ is_logic_operator o
unfolding is_logic is_logic_operator
binary-is_logic o e f = ground arith

pub number-Matches :
    (negative : Bool) (n : ℕ) (z : ℤ) → Matches (number_context negative n) (constant z)
unfolding is_lowerable is_logic is_logic_tree is_lvalue_tree
number-Matches negative n z = record {
  lowers = λ _. refl;
  logic = refl;
  lvalue = λ h. absurd (cc (h));
}

pub char-Matches : (text : List ℕ) (z : ℤ) → Matches (char_context text) (constant z)
unfolding is_lowerable is_logic is_logic_tree is_lvalue_tree
char-Matches text z = record { lowers = λ _. refl; logic = refl; lvalue = λ h. absurd (cc (h)) }

pub single-Matches : {t : Tree} {e : Expression} → Matches t e → Matches (single_child t) e
unfolding is_logic_tree is_lvalue_tree is_sound
single-Matches m = record { lowers = m.lowers; logic = m.logic; lvalue = m.lvalue }

pub parentheses-Matches :
    {t : Tree} {e : Expression} → Matches t e → Matches (parentheses_context t) e
unfolding is_logic_tree is_lvalue_tree is_sound
parentheses-Matches m = record { lowers = m.lowers; logic = m.logic; lvalue = m.lvalue }

pub lvalue-Matches :
    {l : Lvalue} {e : Expression} → MatchesLvalue l e → Matches (lvalue_context l) e
unfolding is_logic_tree is_lvalue_tree is_sound
lvalue-Matches m = record { lowers = m.lowers; logic = m.no_logic; lvalue = λ _. m.is_one }

pub identifier-MatchesLvalue :
    (x : String) (name : String) (type : PrimaryType) (content : Option Bool)
    → MatchesLvalue (identifier_context x) (identifier name type content)
unfolding is_lowerable is_logic is_lvalue
identifier-MatchesLvalue x name type content = record {
  lowers = λ _. refl;
  no_logic = refl;
  is_one = refl;
}

pub array_access-MatchesLvalue :
    (x : String) (name : String) (type : PrimaryType) {t : Tree} {e : Expression}
    → Matches t e
    → MatchesLvalue (array_access_context x t) (array_access name type e)
unfolding is_lowerable is_logic is_lvalue is_sound
array_access-MatchesLvalue x name type m = record {
  lowers = m.lowers;
  no_logic = refl;
  is_one = refl;
}

pub call-Matches :
    (x : String) (name : String) (type : PrimaryType) (variadic : Bool) {ts : Trees}
    {es : Expressions}
    → MatchAll ts es
    → Matches (call_context x ts) (call name type variadic es)
unfolding is_lowerable is_logic is_logic_tree is_lvalue_tree is_sound
call-Matches x name type variadic m = record {
  lowers = m;
  logic = refl;
  lvalue = λ h. absurd (cc (h));
}

pub comma-Matches :
    {ts : Trees} (e : Expression) (es : Expressions)
    → MatchAll ts (expressions e es)
    → Matches (comma_context ts) (comma (expressions e es))
unfolding is_lowerable is_logic is_logic_tree is_lvalue_tree is_sound is_empty
comma-Matches e es m = record { lowers = m; logic = refl; lvalue = λ h. absurd (cc (h)) }

pub binary-Matches :
    (rule : Rule) (token : String) {t u : Tree} (o : BinaryOperator) {l r : Expression}
    → find_binary_op rule token ≡ some o
    → Matches t l
    → Matches u r
    → Matches (binary_context rule token t u) (binary o l r)
unfolding is_lowerable is_logic_tree is_lvalue_tree is_sound
binary-Matches rule token {t} {u} o {l} {r} h m n = record {
  lowers = λ s.
      let p : not (assigns o) || is_lvalue_tree t ≡ true = ground arith in
      ground (arith, m.lowers (ground arith), n.lowers (ground arith), m.lvalue);
  logic = rw h (binary-is_logic o l r);
  lvalue = λ h. absurd (cc (h));
}

pub assignment-Matches :
    (token : String) {l : Lvalue} {t : Tree} (o : BinaryOperator) {e f : Expression}
    → get_op_for_token token ≡ some o
    → MatchesLvalue l e
    → Matches t f
    → Matches (assignment_context l token t) (binary o e f)
unfolding is_lowerable is_logic_tree is_lvalue_tree is_sound
assignment-Matches token o {e} {f} h m n = record {
  lowers = λ s. ground (arith, m.lowers (ground arith), n.lowers (ground arith), m.is_one);
  logic = rw h (binary-is_logic o e f);
  lvalue = λ h. absurd (cc (h));
}

pub prefix-Matches :
    (token : String) {t : Tree} (o : UnaryOperator) {e : Expression}
    → get_prefix_op_for_token token ≡ some o
    → Matches t e
    → Matches (prefix_unary_context (some token) t) (unary o e)
unfolding is_lowerable is_logic is_logic_tree is_lvalue_tree is_sound
prefix-Matches token {t} o h m = record {
  lowers = λ s.
      let p : not (updates o) || is_lvalue_tree t ≡ true = ground arith in
      ground (arith, m.lowers (ground arith), m.lvalue);
  logic = refl;
  lvalue = λ h. absurd (cc (h));
}

pub prefix_none-Matches :
    {t : Tree} {e : Expression} → Matches t e → Matches (prefix_unary_context none t) e
unfolding is_logic_tree is_lvalue_tree is_sound
prefix_none-Matches m = record { lowers = m.lowers; logic = m.logic; lvalue = m.lvalue }

-- A postfix operator on an identifier.
pub postfix_one-Matches :
    {t : Tree} (token : String) (o : UnaryOperator) (name : String) (type : PrimaryType)
    (content : Option Bool)
    → Matches t (identifier name type content)
    → Matches (postfix_unary_context (some token) t) (unary o (identifier name type content))
unfolding is_lowerable is_logic is_logic_tree is_lvalue_tree is_lvalue is_sound
postfix_one-Matches token o name type content m = record {
  lowers = λ s. ground (arith);
  logic = m.logic;
  lvalue = λ h. absurd (cc (h));
}

pub postfix-Matches :
    {t : Tree} (token : Option String) {e : Expression}
    → Matches t e
    → Matches (postfix_unary_context token t) e
unfolding is_logic_tree is_lvalue_tree is_sound
postfix-Matches none m = record { lowers = m.lowers; logic = m.logic; lvalue = m.lvalue }
postfix-Matches (some token) m = record {
  lowers = m.lowers;
  logic = m.logic;
  lvalue = λ h. absurd (cc (h));
}

pub no_tree-MatchAll : are_lowerable no_expression ≡ true
unfolding is_lowerable
no_tree-MatchAll = refl

pub more-MatchAll :
    {t : Tree} (ts : Trees) {e : Expression} (es : Expressions)
    → Matches t e
    → MatchAll ts es
    → MatchAll (trees t ts) (expressions e es)
unfolding is_lowerable is_sound
more-MatchAll ts es m n s = ground (arith, m.lowers (ground arith), n (ground arith))

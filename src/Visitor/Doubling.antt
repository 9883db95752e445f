-- ===== src/Visitor/Doubling.antt =====
-- ASTVisitor_Expression.cpp, `visitPrefixUnaryExpression`: how often the operand of an expression in
-- parentheses is visited.
use caramel.Prelude.{
  ℕ, zero, suc, ◌≡◌, refl, ◌∙◌, subst, String, Bool, true, ◌||◌, none, some, [], ◌∷◌, length, arith,
  ◌+◌, ◌*◌, ◌^◌, length-append, eq_refl, inl, inr,
}
use caramel.Symbols.{Symbol, variable_symbol, array_symbol}
use caramel.Symbols
use caramel.Table.{get_symbol, is_defined, modify}
use caramel.Table.Errors.{ok}
use caramel.Table.Variables.{has_type, add_variable_usage}
use caramel.Table.Resolve.{get_symbol-modify, is_defined-modify}
use caramel.Table.Usage.{add_variable_usage-resolve}
use caramel.Parse.{
  Tree, prefix_unary_context, postfix_unary_context, lvalue_context, parentheses_context,
  single_child, identifier_context,
}
use caramel.Syntax.{Expression, identifier}
use caramel.Visitor.{State, done, ◌>>=◌, on_table, Visit}
use caramel.Visitor.Expressions.{
  visit_identifier, visit_prefix, apply_postfix, visit_expression, content_flag,
}

-- A name in `d` pairs of parentheses.
unfoldable pub nested : String → ℕ → Tree
nested name zero =
    prefix_unary_context none
      (postfix_unary_context none (lvalue_context (identifier_context name)))
nested name (suc d) =
    prefix_unary_context none
      (postfix_unary_context none (parentheses_context (single_child (nested name d))))

-- The name resolves to a variable or an array with `n` occurrences, and some table defines it.
pub record Occurs (name : String) (n : ℕ) (s : State) : Type 0 where
  pub symbol : Symbol
  pub resolves : get_symbol name s.table ≡ some symbol
  pub defined : is_defined name s.table ≡ true
  pub usable : (has_type variable_symbol symbol || has_type array_symbol symbol) ≡ true
  pub occurs : length symbol.occurrences ≡ n

add_usage-is_defined :
    (node : Symbols.Node) (s : Symbol)
    → Symbols.is_defined (Symbols.add_usage node s) ≡ Symbols.is_defined s
unfolding Symbols.add_usage Symbols.is_defined
add_usage-is_defined node s = refl

after_usage :
    (name : String) (n : ℕ) (node : Symbols.Node) (s : State)
    → (o : Occurs name n s)
    → Occurs name
        (suc n)
        (record s { nodes = node; table = modify name (Symbols.add_usage node) s.table })
unfolding has_type Symbols.add_usage
after_usage name n node s o = record {
  symbol = Symbols.add_usage node o.symbol;
  resolves =
      get_symbol-modify name (Symbols.add_usage node) s.table o.resolves name ∙ rw (eq_refl name);
  defined =
      is_defined-modify name (Symbols.add_usage node) s.table (λ r. add_usage-is_defined node r)
      ∙ o.defined;
  usable = o.usable;
  occurs = omega (arith, length-append o.symbol.occurrences (node ∷ []), o.occurs);
}

used :
    (name : String) (n : ℕ) (node : Symbols.Node) (s : State)
    → (o : Occurs name n s)
    → add_variable_usage name node s.table
      ≡ ok (Symbols.add_usage node o.symbol, modify name (Symbols.add_usage node) s.table)
used name n node s o = elim (add_variable_usage-resolve name node s.table) [
  | inl (u, e) ↦ absurd (cc (u, o.defined))
  | inr (r, d, g, e) ↦ ground (arith, e, g, o.resolves, o.usable)
]

-- A visit that adds `k` occurrences.
abbrev Adds : String → ℕ → Visit Expression → Type 0
Adds name k v =
    (n : ℕ) (s : State)
    → Occurs name n s
    → (e : Expression) × (s' : State) × (v s ≡ done e s') × Occurs name (n + k) s'

visit_identifier-Adds : (name : String) → Adds name 1 (visit_identifier name)
unfolding visit_identifier ◌>>=◌ on_table
visit_identifier-Adds name n s o =
    let u = Symbols.add_usage (suc s.nodes) o.symbol in
    let s' : State = record s {
      nodes = suc s.nodes;
      table = modify name (Symbols.add_usage (suc s.nodes)) s.table;
    } in
    (
      identifier u.name u.type (content_flag u.details),
      s',
      rw (used name n (suc s.nodes) s o),
      subst (λ k. Occurs name k s') (omega arith) (after_usage name n (suc s.nodes) s o),
    )

twice-Adds :
    (name : String) (k : ℕ) (v : Visit Expression)
    → Adds name k v
    → Adds name (2 * k) (visit_prefix none v)
unfolding visit_prefix ◌>>=◌
twice-Adds name k v a n s o =
    let (e, t, first, p) = a n s o in
    let (f, u, second, q) = a (n + k) t p in
    (f, u, rw (first, second), subst (λ m. Occurs name m u) (omega arith) q)

postfix-Adds :
    (name : String) (k : ℕ) (v : Visit Expression)
    → Adds name k v
    → Adds name k (v >>= λ e. apply_postfix none e)
unfolding apply_postfix ◌>>=◌
postfix-Adds name k v a n s o = let (e, t, first, p) = a n s o in (e, t, rw first, p)

nested-Adds :
    (left_first : Bool) (name : String) (d : ℕ)
    → Adds name (2 ^ suc d) (visit_expression left_first (nested name d))
unfolding visit_expression nested
nested-Adds left_first name zero =
    twice-Adds name 1 _ (postfix-Adds name 1 _ (visit_identifier-Adds name))
nested-Adds left_first name (suc d) =
    subst (λ k. Adds name k (visit_expression left_first (nested name (suc d)))) (omega arith)
      (twice-Adds name (2 ^ suc d) _
        (postfix-Adds name (2 ^ suc d) _ (nested-Adds left_first name d)))

-- The visit of a name in `d` pairs of parentheses that resolves to a variable or an array, and that some
-- table of the chain defines, returns, and adds 2 ^ (d + 1) occurrences to that symbol: every level of
-- `visitPrefixUnaryExpression` visits its operand twice.
pub visit_nested-Occurs :
    (left_first : Bool) (name : String) (d n : ℕ) (s : State)
    → Occurs name n s
    → (e : Expression) × (s' : State) × (visit_expression left_first (nested name d) s ≡ done e s')
      × Occurs name (n + 2 ^ suc d) s'
visit_nested-Occurs left_first name d n s o = nested-Adds left_first name d n s o

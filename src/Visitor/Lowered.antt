-- ===== src/Visitor/Lowered.antt =====
-- src/visitors: the statements that the parts of a statement are visited to, put together.
use caramel.Prelude.{◌≡◌, refl, Bool, true, false, ◌&&◌, ◌||◌, not, none, some, List, arith}
use caramel.Parse.{Tree, Else, Block}
use caramel.Syntax.{
  Expression, expression, return_statement, break_statement, if_statement, while_statement,
  do_while_statement, for_statement,
}
use caramel.Syntax.Lowerable.{can_lower, is_lowerable_optional}
use caramel.Visitor.Declarations.{Item}
use caramel.Visitor.Statements.{statements_of}
use caramel.Visitor.Shapes.{is_sound, is_logic_tree, Matches}
use caramel.Visitor.Conditions.{
  is_sound_else, is_sound_block, has_sized_arrays, LowersStatement, LowersItems,
}

pub while-LowersStatement :
    {t : Tree} {e : Expression} (b : Block) (items : List Item)
    → Matches t e
    → LowersItems (λ inside. is_sound_block inside b) items
    → LowersStatement
        (λ _. is_sound t && is_sound_block true b)
        (while_statement e (statements_of items))
unfolding can_lower has_sized_arrays
while-LowersStatement b items m l = record {
  lowers = λ inside s a. ground (arith, m.lowers (ground arith), l.body true (ground arith) a);
}

pub do_while-LowersStatement :
    {t : Tree} {e : Expression} (b : Block) (items : List Item)
    → Matches t e
    → LowersItems (λ inside. is_sound_block inside b) items
    → LowersStatement
        (λ _. is_sound t && is_sound_block true b)
        (do_while_statement e (statements_of items))
unfolding can_lower has_sized_arrays
do_while-LowersStatement b items m l = record {
  lowers = λ inside s a. ground (arith, m.lowers (ground arith), l.body true (ground arith) a);
}

pub both_true : (a b : Bool) → (a && b) ≡ true → (a ≡ true) × (b ≡ true)
both_true true true h = (refl, refl)
both_true true false h = absurd (cc (h))
both_true false b h = absurd (cc (h))

pub true_both : {a b : Bool} → a ≡ true → b ≡ true → (a && b) ≡ true
true_both h g = rw (h, g) refl

pub for-LowersStatement :
    {t u v : Tree} {e f g : Expression} (b : Block) (items : List Item)
    → Matches t e
    → Matches u f
    → Matches v g
    → LowersItems (λ inside. is_sound_block inside b) items
    → LowersStatement
        (λ _.
          (not (is_logic_tree u) || is_logic_tree t)
          && (is_sound t && (is_sound u && (is_sound v && is_sound_block true b))))
        (for_statement e f g (statements_of items))
unfolding can_lower has_sized_arrays
for-LowersStatement b items m n o l = record {
  lowers = λ inside s a.
      let (agree, rest) = both_true _ _ s in
      let (x, others) = both_true _ _ rest in
      let (y, last) = both_true _ _ others in
      let (z, body) = both_true _ _ last in
      true_both (rw (m.logic, n.logic) agree) (
        true_both (m.lowers x)
          (true_both (n.lowers y) (true_both (o.lowers z) (l.body true body a))));
}

pub if-LowersStatement :
    {t : Tree} {e : Expression} (b : Block) (c : Else) (xs ys : List Item)
    → Matches t e
    → LowersItems (λ inside. is_sound_block inside b) xs
    → LowersItems (λ inside. is_sound_else inside c) ys
    → LowersStatement
        (λ inside. is_sound t && (is_sound_block inside b && is_sound_else inside c))
        (if_statement e (statements_of xs) (statements_of ys))
unfolding can_lower has_sized_arrays
if-LowersStatement b c xs ys m l n = record {
  lowers = λ inside s a. ground (
    arith,
    m.lowers (ground arith),
    l.body inside (ground arith) (ground arith),
    n.body inside (ground arith) (ground arith),
  );
}

pub expression-LowersStatement :
    {t : Tree} {e : Expression} → Matches t e → LowersStatement (λ _. is_sound t) (expression e)
unfolding can_lower
expression-LowersStatement m = record { lowers = λ _ s _. m.lowers s }

pub return-LowersStatement :
    {t : Tree} {e : Expression}
    → Matches t e
    → LowersStatement (λ _. is_sound t) (return_statement (some e))
unfolding can_lower is_lowerable_optional
return-LowersStatement m = record { lowers = λ _ s _. m.lowers s }

pub return_none-LowersStatement : LowersStatement (λ _. true) (return_statement none)
unfolding can_lower is_lowerable_optional
return_none-LowersStatement = record { lowers = λ _ _ _. refl }

pub break-LowersStatement : LowersStatement (λ inside. inside) break_statement
unfolding can_lower
break-LowersStatement = record { lowers = λ _ s _. s }

-- ===== src/Visitor/Conditions.antt =====
-- src/visitors: what the visitor's checks leave open on the statements of a parse tree, and of the
-- arrays that it returns; and what is lowered where both hold.
use caramel.Prelude.{
  ◌≡◌, refl, ltb, is_some, Bool, true, false, ◌&&◌, ◌||◌, not, Option, none, some, String, List, [],
  ◌∷◌, ◌++◌, arith,
}
use caramel.Types.{memory_length}
use caramel.Parse.{
  Tree, Trees, Instruction, break_jump_context, return_jump_context, if_block_context,
  while_block_context, do_while_block_context, for_block_context, expression_context, IfBlock,
  if_block, Else, no_else, else_block, else_if, Block, block, Declarations, no_declaration,
  declarations, Instructions, no_instruction, instructions, Declaration,
  function_definition_context, array_definition_context, variable_definition_context,
  instruction_context, declaration_context, instruction_separator,
}
use caramel.Parse
use caramel.Syntax.{
  Statement, array_definition, if_statement, while_statement, do_while_statement, for_statement,
  Statements, no_statement, statements, Function,
}
use caramel.Syntax.Lowerable.{can_lower, can_lower_all, can_lower_program}
use caramel.Visitor.Declarations.{Item, statement, function}
use caramel.Visitor.Statements.{statements_of, as_statement}
use caramel.Visitor.Root.{functions_of}
use caramel.Visitor.Shapes.{is_sound, are_sound, is_logic_tree}

abbrev pub is_sound_optional : Option Tree → Bool
is_sound_optional none = true
is_sound_optional (some t) = is_sound t

abbrev pub are_sound_optional : Option Trees → Bool
are_sound_optional none = true
are_sound_optional (some ts) = are_sound ts

unfoldable pub are_sound_values : List (String × Tree) → Bool
unfolding is_sound
are_sound_values [] = true
are_sound_values ((name, t) ∷ rest) = is_sound t && are_sound_values rest

-- In a loop or not: `break` stands in a loop, and where the condition of a `for` has blocks, so has its
-- initialisation.
unfoldable mutual
  unfolding is_sound is_logic_tree are_sound_values

  pub is_sound_instruction : Bool → Instruction → Bool
  is_sound_instruction inside break_jump_context = inside
  is_sound_instruction inside (return_jump_context t) = is_sound_optional t
  is_sound_instruction inside (if_block_context b) = is_sound_if inside b
  is_sound_instruction inside (while_block_context t b) = is_sound t && is_sound_block true b
  is_sound_instruction inside (do_while_block_context t b) = is_sound t && is_sound_block true b
  is_sound_instruction inside (for_block_context begin end step b) =
      (not (is_logic_tree end) || is_logic_tree begin)
      && (is_sound begin && (is_sound end && (is_sound step && is_sound_block true b)))
  is_sound_instruction inside (expression_context t) = is_sound t

  pub is_sound_if : Bool → IfBlock → Bool
  is_sound_if inside (if_block t b e) =
      is_sound t && (is_sound_block inside b && is_sound_else inside e)

  pub is_sound_else : Bool → Else → Bool
  is_sound_else inside no_else = true
  is_sound_else inside (else_block b) = is_sound_block inside b
  is_sound_else inside (else_if b) = is_sound_if inside b

  pub is_sound_block : Bool → Block → Bool
  is_sound_block inside (block ds is) =
      are_sound_declarations ds && are_sound_instructions inside is

  pub are_sound_declarations : Declarations → Bool
  are_sound_declarations no_declaration = true
  are_sound_declarations (declarations d ds) = is_sound_declaration d && are_sound_declarations ds

  pub are_sound_instructions : Bool → Instructions → Bool
  are_sound_instructions inside no_instruction = true
  are_sound_instructions inside (instructions i is) =
      is_sound_instruction inside i && are_sound_instructions inside is

  pub is_sound_declaration : Declaration → Bool
  is_sound_declaration (function_definition_context inner b) = is_sound_block false b
  is_sound_declaration (array_definition_context inner elements) = are_sound_optional elements
  is_sound_declaration (variable_definition_context type names assigned) = are_sound_values assigned
  is_sound_declaration _ = true

unfoldable pub is_sound_statement : Parse.Statement → Bool
unfolding is_sound_instruction
is_sound_statement (instruction_context i) = is_sound_instruction false i
is_sound_statement (declaration_context d) = is_sound_declaration d
is_sound_statement instruction_separator = true

unfoldable pub are_sound_statements : List Parse.Statement → Bool
unfolding is_sound_statement
are_sound_statements [] = true
are_sound_statements (s ∷ ss) = is_sound_statement s && are_sound_statements ss

-- Every array has a content, a type of some size, and some elements.
unfoldable mutual
  pub has_sized_arrays : Statement → Bool
  has_sized_arrays (array_definition name type size content) =
      is_some content && (ltb 0 (memory_length type) && ltb 0 size)
  has_sized_arrays (if_statement condition positive negative) =
      have_sized_arrays positive && have_sized_arrays negative
  has_sized_arrays (while_statement condition body) = have_sized_arrays body
  has_sized_arrays (do_while_statement condition body) = have_sized_arrays body
  has_sized_arrays (for_statement first condition step body) = have_sized_arrays body
  has_sized_arrays _ = true

  pub have_sized_arrays : Statements → Bool
  have_sized_arrays no_statement = true
  have_sized_arrays (statements s ss) = has_sized_arrays s && have_sized_arrays ss

unfoldable pub all_sized_arrays : List Function → Bool
unfolding has_sized_arrays
all_sized_arrays [] = true
all_sized_arrays (f ∷ fs) = have_sized_arrays f.body && all_sized_arrays fs

pub record LowersStatement (sound : Bool → Bool) (s : Statement) : Type 0 where
  pub lowers :
      (inside : Bool) → sound inside ≡ true → has_sized_arrays s ≡ true → can_lower inside s ≡ true

-- As the body of a function or a control block, and as the statements of the root context.
pub record LowersItems (sound : Bool → Bool) (items : List Item) : Type 0 where
  pub body :
      (inside : Bool)
      → sound inside ≡ true
      → have_sized_arrays (statements_of items) ≡ true
      → can_lower_all inside (statements_of items) ≡ true
  pub functions :
      (inside : Bool)
      → sound inside ≡ true
      → all_sized_arrays (functions_of items) ≡ true
      → can_lower_program (functions_of items) ≡ true

module _ {p : Bool → Bool} where
  pub no_item-LowersItems : LowersItems p []
  unfolding statements_of functions_of can_lower can_lower_program
  no_item-LowersItems = record { body = λ _ _ _. refl; functions = λ _ _ _. refl }

  pub one-LowersItems : {s : Statement} → LowersStatement p s → LowersItems p (statement s ∷ [])
  unfolding statements_of functions_of can_lower can_lower_program has_sized_arrays
  one-LowersItems l = record {
    body = λ inside h a. ground (arith, l.lowers inside h (ground arith));
    functions = λ _ _ _. refl;
  }

and_assoc : (a b c : Bool) → (a && (b && c)) ≡ ((a && b) && c)
and_assoc true b c = refl
and_assoc false b c = refl

have_sized_arrays-append :
    (xs ys : List Item)
    → have_sized_arrays (statements_of (xs ++ ys))
      ≡ (have_sized_arrays (statements_of xs) && have_sized_arrays (statements_of ys))
unfolding statements_of has_sized_arrays
have_sized_arrays-append [] ys = refl
have_sized_arrays-append (x ∷ xs) ys = rw (have_sized_arrays-append xs ys) (
    and_assoc (has_sized_arrays (as_statement x)) (have_sized_arrays (statements_of xs))
      (have_sized_arrays (statements_of ys)))

can_lower_all-append :
    (inside : Bool) (xs ys : List Item)
    → can_lower_all inside (statements_of (xs ++ ys))
      ≡ (can_lower_all inside (statements_of xs) && can_lower_all inside (statements_of ys))
unfolding statements_of can_lower
can_lower_all-append inside [] ys = refl
can_lower_all-append inside (x ∷ xs) ys = ground (arith, can_lower_all-append inside xs ys)

all_sized_arrays-append :
    (xs ys : List Item)
    → all_sized_arrays (functions_of (xs ++ ys))
      ≡ (all_sized_arrays (functions_of xs) && all_sized_arrays (functions_of ys))
unfolding functions_of all_sized_arrays
all_sized_arrays-append [] ys = refl
all_sized_arrays-append (statement x ∷ xs) ys = all_sized_arrays-append xs ys
all_sized_arrays-append (function f ∷ xs) ys = ground (arith, all_sized_arrays-append xs ys)

can_lower_program-append :
    (xs ys : List Item)
    → can_lower_program (functions_of (xs ++ ys))
      ≡ (can_lower_program (functions_of xs) && can_lower_program (functions_of ys))
unfolding functions_of can_lower_program
can_lower_program-append [] ys = refl
can_lower_program-append (statement x ∷ xs) ys = can_lower_program-append xs ys
can_lower_program-append (function f ∷ xs) ys = ground (arith, can_lower_program-append xs ys)

pub append-LowersItems :
    {p q r : Bool → Bool} (xs ys : List Item)
    → ((inside : Bool) → r inside ≡ true → (p inside ≡ true) × (q inside ≡ true))
    → LowersItems p xs
    → LowersItems q ys
    → LowersItems r (xs ++ ys)
append-LowersItems xs ys h l m = record {
  body = λ inside s a.
      let (p, q) = h inside s in
      ground (
        arith,
        have_sized_arrays-append xs ys,
        can_lower_all-append inside xs ys,
        l.body inside p (ground (arith, have_sized_arrays-append xs ys)),
        m.body inside q (ground (arith, have_sized_arrays-append xs ys)),
      );
  functions = λ inside s a.
      let (p, q) = h inside s in
      ground (
        arith,
        all_sized_arrays-append xs ys,
        can_lower_program-append xs ys,
        l.functions inside p (ground (arith, all_sized_arrays-append xs ys)),
        m.functions inside q (ground (arith, all_sized_arrays-append xs ys)),
      );
}

-- A weaker condition on the tree.
pub weaker-LowersItems :
    {p q : Bool → Bool} {xs : List Item}
    → ((inside : Bool) → q inside ≡ true → p inside ≡ true)
    → LowersItems p xs
    → LowersItems q xs
weaker-LowersItems h l = record {
  body = λ inside s a. l.body inside (h inside s) a;
  functions = λ inside s a. l.functions inside (h inside s) a;
}

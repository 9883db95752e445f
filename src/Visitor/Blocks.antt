-- ===== src/Visitor/Blocks.antt =====
-- ASTVisitor.cpp, ASTVisitor_ControlBlock.cpp: what the visits of statements return, and what they keep.
use caramel.Prelude.{ℕ, suc, ◌≡◌, Bool, true, Option, none, some, List, []}
use caramel.Parse.{
  Tree, Instruction, break_jump_context, return_jump_context, if_block_context, while_block_context,
  do_while_block_context, for_block_context, expression_context, IfBlock, if_block, Else, no_else,
  else_block, else_if, Block, block, Declarations, no_declaration, declarations, Instructions,
  no_instruction, instructions, Declaration, type_definition_context, function_definition_context,
  function_declaration_context, array_declaration_context, array_definition_context,
  variable_declaration_context, variable_definition_context,
}
use caramel.Syntax.{Statement}
use caramel.Visitor.{State, Visit, catch}
use caramel.Visitor.Holds.{Holds, IsKept, IsNested, ◌>>=◌, pure_lem, new_node-Holds, catch-Holds}
use caramel.Visitor.Declarations.{Item}
use caramel.Visitor.Statements.{
  visit_return_jump, visit_loop, visit_for_block, visit_if_parts, one_item, both, visit_instruction,
  visit_if_block, visit_else, visit_block, visit_declarations, visit_instructions,
  visit_declaration,
}
use caramel.Visitor.Trees.{visit_expression-Holds}
use caramel.Visitor.Conditions.{
  is_sound_optional, is_sound_instruction, is_sound_if, is_sound_else, is_sound_block,
  are_sound_declarations, are_sound_instructions, is_sound_declaration, LowersStatement,
  LowersItems, no_item-LowersItems, one-LowersItems, append-LowersItems,
}
use caramel.Visitor.Variables.{
  visit_type_definition-Holds, visit_variable_declaration-Holds, visit_variable_definition-Holds,
}
use caramel.Visitor.Arrays.{visit_array_declaration-Holds, visit_array_definition-Holds}
use caramel.Visitor.Functions.{visit_function_declaration-Holds, visit_function_definition-Holds}
use caramel.Visitor.Lowered.{
  both_true, while-LowersStatement, do_while-LowersStatement, for-LowersStatement,
  if-LowersStatement, expression-LowersStatement, return-LowersStatement,
  return_none-LowersStatement, break-LowersStatement,
}

module _ {I : State → Type 0} (k : IsKept I) where
  pub both-Holds :
      {p q r : Bool → Bool} {v w : Visit (List Item)}
      → ((inside : Bool) → r inside ≡ true → (p inside ≡ true) × (q inside ≡ true))
      → Holds I (LowersItems p) v
      → Holds I (LowersItems q) w
      → Holds I (LowersItems r) (both v w)
  unfolding both
  both-Holds h v w =
      v >>= λ items l. w >>= λ others m. pure_lem (append-LowersItems items others h l m)

  pub one_item-Holds :
      {p : Bool → Bool} {v : Visit Statement}
      → Holds I (LowersStatement p) v
      → Holds I (LowersItems p) (one_item v)
  unfolding one_item
  one_item-Holds v = v >>= λ s l. pure_lem (one-LowersItems l)

  pub caught-Holds :
      {p : Bool → Bool} {v : Visit (List Item)}
      → Holds I (LowersItems p) v
      → Holds I (LowersItems p) (catch [] v)
  caught-Holds v = catch-Holds k [] no_item-LowersItems v

  module _ (left_first : Bool) where
    visit_return-Holds :
        (t : Option Tree)
        → Holds I (LowersStatement (λ _. is_sound_optional t)) (visit_return_jump left_first t)
    unfolding visit_return_jump
    visit_return-Holds none = new_node-Holds k >>= λ _ _. pure_lem return_none-LowersStatement
    visit_return-Holds (some t) = visit_expression-Holds k left_first t >>= λ e m.
        new_node-Holds k >>= λ _ _. pure_lem (return-LowersStatement m)

module _ {I : ℕ → State → Type 0} (k : IsNested I) (left_first : Bool) where
  mutual
    unfolding visit_instruction visit_loop visit_for_block visit_if_parts is_sound_instruction

    pub visit_instruction-Holds :
        (d : ℕ) (i : Instruction)
        → Holds
            (I d)
            (LowersStatement (λ inside. is_sound_instruction inside i))
            (visit_instruction left_first i)
    visit_instruction-Holds d break_jump_context =
        new_node-Holds (k.kept d) >>= λ _ _. pure_lem break-LowersStatement
    visit_instruction-Holds d (return_jump_context t) = visit_return-Holds (k.kept d) left_first t
    visit_instruction-Holds d (if_block_context b) = visit_if_block-Holds d b
    visit_instruction-Holds d (while_block_context t b) =
        visit_expression-Holds (k.kept d) left_first t >>= λ e m.
        visit_block-Holds d b >>= λ items l.
        new_node-Holds (k.kept d) >>= λ _ _. pure_lem (while-LowersStatement b items m l)
    visit_instruction-Holds d (do_while_block_context t b) =
        visit_expression-Holds (k.kept d) left_first t >>= λ e m.
        visit_block-Holds d b >>= λ items l.
        new_node-Holds (k.kept d) >>= λ _ _. pure_lem (do_while-LowersStatement b items m l)
    visit_instruction-Holds d (for_block_context t u v b) =
        visit_expression-Holds (k.kept d) left_first t >>= λ e m.
        visit_expression-Holds (k.kept d) left_first u >>= λ f n.
        visit_expression-Holds (k.kept d) left_first v >>= λ g o.
        visit_block-Holds d b >>= λ items l.
        new_node-Holds (k.kept d) >>= λ _ _. pure_lem (for-LowersStatement b items m n o l)
    visit_instruction-Holds d (expression_context t) =
        visit_expression-Holds (k.kept d) left_first t >>= λ e m.
        pure_lem (expression-LowersStatement m)

    visit_if_block-Holds :
        (d : ℕ) (i : IfBlock)
        → Holds
            (I d)
            (LowersStatement (λ inside. is_sound_if inside i))
            (visit_if_block left_first i)
    visit_if_block-Holds d (if_block t b c) =
        visit_expression-Holds (k.kept d) left_first t >>= λ e m. visit_block-Holds d b >>= λ xs l.
        visit_else-Holds d c >>= λ ys n.
        new_node-Holds (k.kept d) >>= λ _ _. pure_lem (if-LowersStatement b c xs ys m l n)

    visit_else-Holds :
        (d : ℕ) (c : Else)
        → Holds (I d) (LowersItems (λ inside. is_sound_else inside c)) (visit_else left_first c)
    visit_else-Holds d no_else = pure_lem no_item-LowersItems
    visit_else-Holds d (else_block b) = visit_block-Holds d b
    visit_else-Holds d (else_if i) = one_item-Holds (k.kept d) (visit_if_block-Holds d i)

    visit_block-Holds :
        (d : ℕ) (b : Block)
        → Holds (I d) (LowersItems (λ inside. is_sound_block inside b)) (visit_block left_first b)
    visit_block-Holds d (block ds is) =
        both-Holds (k.kept d) (λ inside s. both_true _ _ s)
          (caught-Holds (k.kept d) (visit_declarations-Holds d ds))
          (caught-Holds (k.kept d) (visit_instructions-Holds d is))

    visit_declarations-Holds :
        (d : ℕ) (ds : Declarations)
        → Holds
            (I d)
            (LowersItems (λ _. are_sound_declarations ds))
            (visit_declarations left_first ds)
    visit_declarations-Holds d no_declaration = pure_lem no_item-LowersItems
    visit_declarations-Holds d (declarations c ds) =
        both-Holds (k.kept d) (λ inside s. both_true _ _ s)
          (caught-Holds (k.kept d) (visit_declaration-Holds d c)) (visit_declarations-Holds d ds)

    visit_instructions-Holds :
        (d : ℕ) (is : Instructions)
        → Holds
            (I d)
            (LowersItems (λ inside. are_sound_instructions inside is))
            (visit_instructions left_first is)
    visit_instructions-Holds d no_instruction = pure_lem no_item-LowersItems
    visit_instructions-Holds d (instructions i is) =
        both-Holds (k.kept d) (λ inside s. both_true _ _ s)
          (one_item-Holds (k.kept d) (visit_instruction-Holds d i)) (visit_instructions-Holds d is)

    pub visit_declaration-Holds :
        (d : ℕ) (c : Declaration)
        → Holds (I d) (LowersItems (λ _. is_sound_declaration c)) (visit_declaration left_first c)
    visit_declaration-Holds d (type_definition_context primary alias) =
        visit_type_definition-Holds (k.kept d) primary alias
    visit_declaration-Holds d (function_definition_context inner b) =
        visit_function_definition-Holds k d {p = λ inside. is_sound_block inside b} inner
          (visit_block-Holds (suc d) b)
    visit_declaration-Holds d (function_declaration_context inner) =
        visit_function_declaration-Holds (k.kept d) inner
    visit_declaration-Holds d (array_declaration_context inner) =
        visit_array_declaration-Holds (k.kept d) inner
    visit_declaration-Holds d (array_definition_context inner elements) =
        visit_array_definition-Holds (k.kept d) left_first inner elements
    visit_declaration-Holds d (variable_declaration_context type names) =
        visit_variable_declaration-Holds (k.kept d) type names
    visit_declaration-Holds d (variable_definition_context type names assigned) =
        visit_variable_definition-Holds (k.kept d) left_first type names assigned

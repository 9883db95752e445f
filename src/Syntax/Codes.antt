-- ===== src/Syntax/Codes.antt =====
-- src/ast: the lowering of every statement keeps a valid graph valid, and does not fail on one that is
-- lowerable.
use caramel.Prelude.{
  arith, Bool, true, ◌&&◌, ◌||◌, not, ◌≡◌, refl, Option, none, some, List, [], ◌∷◌, ◌++◌, All,
  is_some,
}
use caramel.Code.{GetIr, ir_code, block_code, no_code, GetBasicBlock}
use caramel.Code.Atoms.{constant as constant_value}
use caramel.Lowering.{IsIr, IsStatementIr, IsValue, IsCode, IsBuilt, IsValue-IsCode}
use caramel.Lowering.Statements.{
  IsOptional, contents, variable_definition_ir-IsIr, return_ir-IsIr, array_definition_ir-IsIr,
  break_ir-IsStatementIr,
}
use caramel.Lowering.Blocks.{if_block-IsBuilt}
use caramel.Lowering.Loops.{while_block-IsBuilt, do_while_block-IsBuilt}
use caramel.Lowering.For.{for_block-IsBuilt}
use caramel.Syntax.{
  Expression, constant, identifier, array_access, binary, unary, call, comma, Expressions,
  no_expression, expressions, Statement, expression, variable_definition, array_definition,
  return_statement, break_statement, declaration, if_statement, while_statement, do_while_statement,
  for_statement, Statements, no_statement, statements, value_of, binary_value, unary_value,
  elements_of, optional_value, optional_elements, code_of, codes_of,
}
use caramel.Syntax.Lowerable.{
  is_logic, is_lowerable, are_lowerable, is_lowerable_optional, is_lowerable_content, can_lower,
  can_lower_all,
}
use caramel.Syntax.Values.{both, value_of-IsValue}

-- Only the operators of blocks return no instruction.
returns_ir : (e : Expression) → (value_of e).code.should_return_an_ir ≡ not (is_logic e)
unfolding value_of is_logic binary_value unary_value constant_value
returns_ir (constant number) = refl
returns_ir (identifier name type content) = refl
returns_ir (array_access name type index) = refl
returns_ir (binary operator left right) = ground arith
returns_ir (unary operator operand) = ground arith
returns_ir (call name type variadic arguments) = refl
returns_ir (comma es) = refl

module _ {total inside : Bool} where
  ir_code-IsCode : (get : GetIr) → IsIr total get → IsCode total inside (ir_code get)
  ir_code-IsCode get h = record { ir = λ _ g b v i _. h g b v i; blocks = λ e. absurd (cc (e)) }

  block_code-IsCode :
      (get : GetBasicBlock) → IsBuilt total inside get → IsCode total inside (block_code get)
  block_code-IsCode get h = record { ir = λ e. absurd (cc (e)); blocks = λ _ _. h }

  no_code-IsCode : IsCode total inside no_code
  no_code-IsCode = record { ir = λ e. absurd (cc (e)); blocks = λ _ e. absurd (cc (e)) }

  break-IsCode : (get : GetIr) → IsStatementIr total inside get → IsCode total inside (ir_code get)
  break-IsCode get h = record { ir = λ _. h; blocks = λ e. absurd (cc (e)) }

All-snoc :
    {A : Type 0} (P : A → Type 0) (xs : List A) (x : A) → All P xs → P x → All P (xs ++ x ∷ [])
All-snoc P [] x h p = (p, tt)
All-snoc P (y ∷ ys) x (q, h) p = (q, All-snoc P ys x h p)

content-found :
    (content : Option Expressions)
    → is_lowerable_content content ≡ true
    → is_some (optional_elements content) ≡ true
unfolding optional_elements is_lowerable_content
content-found none h = h
content-found (some es) h = refl

agreeing :
    (a c : Expression)
    → (not (is_logic c) || is_logic a) ≡ true
    → (value_of c).code.should_return_an_ir || not (value_of a).code.should_return_an_ir ≡ true
agreeing a c h = ground (arith, returns_ir a, returns_ir c)

five :
    (a b c d e : Bool)
    → a && (b && (c && (d && e))) ≡ true
    → (a ≡ true) × (b ≡ true) × (c ≡ true) × (d ≡ true) × (e ≡ true)
five a b c d e h = ground (arith)

module _ {total : Bool} where
  optional_value-IsOptional :
      (e : Option Expression)
      → (total ≡ true → is_lowerable_optional e ≡ true)
      → IsOptional total (optional_value e)
  unfolding optional_value is_lowerable_optional
  optional_value-IsOptional none h = tt
  optional_value-IsOptional (some e) h = value_of-IsValue e h

  elements_of-AreValues :
      (es : Expressions)
      → (total ≡ true → are_lowerable es ≡ true)
      → All (IsValue total) (elements_of es)
  unfolding elements_of is_lowerable
  elements_of-AreValues no_expression h = tt
  elements_of-AreValues (expressions e es) h =
      All-snoc (IsValue total) (elements_of es) (value_of e)
        (elements_of-AreValues es (λ t. (both _ _ (h t)).1))
        (value_of-IsValue e (λ t. (both _ _ (h t)).0))

  contents-AreValues :
      (content : Option Expressions)
      → (total ≡ true → is_lowerable_content content ≡ true)
      → All (IsValue total) (contents (optional_elements content))
  unfolding optional_elements is_lowerable_content
  contents-AreValues none h = tt
  contents-AreValues (some es) h = elements_of-AreValues es h

  mutual
    unfolding code_of can_lower

    pub code_of-IsCode :
        (inside : Bool) (s : Statement)
        → (total ≡ true → can_lower inside s ≡ true)
        → IsCode total inside (code_of s)
    code_of-IsCode inside (expression e) h = IsValue-IsCode total inside _ (value_of-IsValue e h)
    code_of-IsCode inside (variable_definition name type init) h =
        ir_code-IsCode _
          (variable_definition_ir-IsIr name type _ (optional_value-IsOptional init h))
    code_of-IsCode inside (array_definition name type size content) h = ir_code-IsCode _ (
        array_definition_ir-IsIr name type size _
          (contents-AreValues content (λ t. (both _ _ (h t)).0))
          (λ t. content-found content (both _ _ (h t)).0) (λ t. (both _ _ (both _ _ (h t)).1).0)
          (λ t. (both _ _ (both _ _ (h t)).1).1))
    code_of-IsCode inside (return_statement e) h =
        ir_code-IsCode _ (return_ir-IsIr _ (optional_value-IsOptional e h))
    code_of-IsCode inside break_statement h = break-IsCode _ (break_ir-IsStatementIr inside h)
    code_of-IsCode inside declaration h = no_code-IsCode
    code_of-IsCode inside (if_statement condition then_block else_block) h = block_code-IsCode _ (
        if_block-IsBuilt (value_of-IsValue condition (λ t. (both _ _ (h t)).0)) _ _
          (codes_of-AreCodes inside then_block (λ t. (both _ _ (both _ _ (h t)).1).0))
          (codes_of-AreCodes inside else_block (λ t. (both _ _ (both _ _ (h t)).1).1)))
    code_of-IsCode inside (while_statement condition body) h = block_code-IsCode _ (
        while_block-IsBuilt (value_of-IsValue condition (λ t. (both _ _ (h t)).0)) _
          (codes_of-AreCodes true body (λ t. (both _ _ (h t)).1)))
    code_of-IsCode inside (do_while_statement condition body) h = block_code-IsCode _ (
        do_while_block-IsBuilt (value_of-IsValue condition (λ t. (both _ _ (h t)).0)) _
          (codes_of-AreCodes true body (λ t. (both _ _ (h t)).1)))
    code_of-IsCode inside (for_statement first condition step body) h =
        let parts = λ (t : total ≡ true).
          five (not (is_logic condition) || is_logic first) (is_lowerable first)
            (is_lowerable condition) (is_lowerable step) (can_lower_all true body) (h t) in
        block_code-IsCode _ (
          for_block-IsBuilt (value_of-IsValue first (λ t. (parts t).1))
            (value_of-IsValue condition (λ t. (parts t).2))
            (value_of-IsValue step (λ t. (parts t).3)) (λ t. agreeing first condition (parts t).0) _
            (codes_of-AreCodes true body (λ t. (parts t).4)))

    pub codes_of-AreCodes :
        (inside : Bool) (ss : Statements)
        → (total ≡ true → can_lower_all inside ss ≡ true)
        → All (IsCode total inside) (codes_of ss)
    codes_of-AreCodes inside no_statement h = tt
    codes_of-AreCodes inside (statements s ss) h = (
      code_of-IsCode inside s (λ t. (both _ _ (h t)).0),
      codes_of-AreCodes inside ss (λ t. (both _ _ (h t)).1),
    )

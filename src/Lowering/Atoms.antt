-- ===== src/Lowering/Atoms.antt =====
-- src/ast/statements/expressions: constants, identifiers, accesses to arrays, calls and sequences keep
-- a valid graph valid.
use caramel.Prelude.{
  subst, ap, refl, ℕ, suc, ◌≡◌, Bool, true, String, Option, none, some, List, [], ◌∷◌, All,
}
use caramel.Prelude.Int.{ℤ}
use caramel.Types.{PrimaryType}
use caramel.Graph.{Graph}
use caramel.Graph.Ensured.{Ensured, failed, ◌>>=◌, pure_lem, weaken}
use caramel.Graph.Extends.{IsValid, IsGenerated, Moves, Moves-refl, Moves-trans}
use caramel.Graph.Operations.{create_var_name-Moves, add_to-Moves}
use caramel.Code.{Value, GetIr, Place, array_access}
use caramel.Code.Atoms.{
  constant, constant_ir, logical_not_operator, identifier_ir, identifier_value, array_access_ir,
  array_access_value, each_expression, comma_ir, pass_arguments, function_call_ir,
}
use caramel.Lowering.{IsIr, IsValue, added-Moves, may_fail, is_cons}
use caramel.Lowering.Operators.{value-IsValue, operate-IsIr}

-- The code of the index, or other code where there is no index.
index_of : GetIr → Option (String × Place) → GetIr
index_of other (some (name, array_access type get)) = get
index_of other _ = other

module _ {total : Bool} where
  constant_ir-IsIr : (number : ℤ) → IsIr total (constant_ir number)
  unfolding constant_ir
  constant_ir-IsIr number g b v h = create_var_name-Moves v h >>= λ name g1 m1. pure_lem m1

  pub constant-IsValue : (number : ℤ) → IsValue total (constant number)
  unfolding constant
  constant-IsValue number = value-IsValue _ _ (constant_ir-IsIr number)

  pub logical_not_operator-IsIr :
      {operand : Value} → IsValue total operand → IsIr total (logical_not_operator operand)
  unfolding logical_not_operator
  logical_not_operator-IsIr o = operate-IsIr o (constant-IsValue _) _

  identifier_ir-IsIr :
      (name : String) (type : PrimaryType) (content : Option Bool)
      → IsIr total (identifier_ir name type content)
  unfolding identifier_ir
  identifier_ir-IsIr name type (some c) g b v h =
      create_var_name-Moves v h >>= λ d g1 m1. pure_lem m1
  identifier_ir-IsIr name type none g b v h = pure_lem (Moves-refl v h)

  pub identifier_value-IsValue :
      (name : String) (type : PrimaryType) (content : Option Bool)
      → IsValue total (identifier_value name type content)
  identifier_value-IsValue name type content = record {
    ir = identifier_ir-IsIr name type content;
    blocks = λ e. absurd (cc);
    unbuilt = λ e g. refl;
    index = λ n t i e. absurd (cc);
  }

  module _ (name : String) (type : PrimaryType) {i : Value} (index : IsValue total i) where
    array_access_ir-IsIr : IsIr total (array_access_ir name type i)
    unfolding array_access_ir
    array_access_ir-IsIr g b v h = added-Moves index.ir v h >>= λ x g1 m1.
        create_var_name-Moves m1.valid m1.here >>= λ d g2 m2. pure_lem (Moves-trans m1 m2)

    pub array_access_value-IsValue : IsValue total (array_access_value name type i)
    unfolding index_of
    array_access_value-IsValue = record {
      ir = array_access_ir-IsIr;
      blocks = λ e. absurd (cc);
      unbuilt = λ e g. refl;
      index = λ n t get e. subst (IsIr total) (ap (index_of i.code.get_ir) e) index.ir;
    }

  each_expression-IsIr :
      (es : List Value) (location : String) (type : PrimaryType)
      → All (IsValue total) es
      → IsIr total (each_expression es location type)
  unfolding each_expression
  each_expression-IsIr [] location type all g b v h = pure_lem (Moves-refl v h)
  each_expression-IsIr (e ∷ es) location type (i, all) g b v h = added-Moves i.ir v h >>= λ x g1 m1.
      weaken (each_expression-IsIr es x.0 e.type all g1 x.1 m1.valid m1.here)
        (λ y g2 m2. Moves-trans m1 m2)

  pub comma_ir-IsIr :
      (es : List Value)
      → All (IsValue total) es
      → (total ≡ true → is_cons es ≡ true)
      → IsIr total (comma_ir es)
  unfolding comma_ir
  comma_ir-IsIr [] all s g b v h = failed (may_fail s refl) refl
  comma_ir-IsIr (e ∷ es) all s g b v h = each_expression-IsIr (e ∷ es) "" e.type all g b v h

  pass_arguments-Moves :
      (i : ℕ) (args : List Value)
      → All (IsValue total) args
      → (g : Graph) (b : ℕ) → IsValid g
      → IsGenerated g.next_block_number (some b)
      → Ensured total (pass_arguments i args b) g (λ b' g'. Moves g b g' b')
  unfolding pass_arguments
  pass_arguments-Moves i [] all g b v h = pure_lem (Moves-refl v h)
  pass_arguments-Moves i (a ∷ args) (k, all) g b v h =
      pass_arguments-Moves (suc i) args all g b v h >>= λ b1 g1 m1.
      added-Moves k.ir m1.valid m1.here >>= λ x g2 m2.
      add_to-Moves m2.valid _ m2.here >>= λ y g3 m3. pure_lem (Moves-trans m1 (Moves-trans m2 m3))

  pub function_call_ir-IsIr :
      (name : String) (type : PrimaryType) (variadic : Bool) (args : List Value)
      → All (IsValue total) args
      → IsIr total (function_call_ir name type variadic args)
  unfolding function_call_ir
  function_call_ir-IsIr name type variadic args all g b v h =
      pass_arguments-Moves 0 args all g b v h >>= λ b1 g1 m1.
      create_var_name-Moves m1.valid m1.here >>= λ d g2 m2. pure_lem (Moves-trans m1 m2)

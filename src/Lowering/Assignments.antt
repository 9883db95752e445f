-- ===== src/Lowering/Assignments.antt =====
-- src/ast/operators: the assignments, increments and decrements keep a valid graph valid.
use caramel.Prelude.{ℕ, ◌≡◌, refl, Bool, true, String, Option, none, some, is_some}
use caramel.Types.{PrimaryType}
use caramel.Ir.{Kind}
use caramel.Graph.{Graph, not_null}
use caramel.Graph.Ensured.{Ensured, failed, ◌>>=◌, pure_lem}
use caramel.Graph.Extends.{IsValid, IsGenerated, Moves, Moves-refl, Moves-trans}
use caramel.Graph.Operations.{create_var_name-Moves, add_to-Moves}
use caramel.Code.{Value, Place, identifier, array_access}
use caramel.Code.Assignments.{
  symbol_name, assigned, assign_to, assignment_operator, operate_on, step_before, step_after,
}
use caramel.Lowering.{may_fail, IsIr, IsValue, added-Moves}

module _ {total : Bool} where
  -- What is cast to an `LValue` is one where the code does not fail.
  not_null-Moves :
      {A : Type 0} {g : Graph} {b : ℕ} (x : Option A)
      → IsValid g
      → IsGenerated g.next_block_number (some b)
      → (total ≡ true → is_some x ≡ true)
      → Ensured total (not_null x) g (λ a g'. Moves g b g' b)
  not_null-Moves (some a) v h s = pure_lem (Moves-refl v h)
  not_null-Moves none v h s = failed (may_fail s refl) refl

  module _ {left right : Value} (l : IsValue total left) (r : IsValue total right) where
    assigned-Moves :
        (place : Option (String × Place)) (type : PrimaryType) (g : Graph) (b : ℕ)
        → IsValid g
        → IsGenerated g.next_block_number (some b)
        → Ensured total (assigned place right type b) g (λ x g'. Moves g b g' x.1)
    unfolding assigned
    assigned-Moves (some (name, place)) type g b v h = create_var_name-Moves v h >>= λ d g1 m1.
        add_to-Moves m1.valid _ m1.here >>= λ x g2 m2. pure_lem (Moves-trans m1 m2)
    assigned-Moves none type g b v h = added-Moves r.ir v h

    assign_to-IsIr :
        (place : Option (String × Place))
        → left.lvalue ≡ place
        → (total ≡ true → is_some place ≡ true)
        → IsIr total (assign_to place left right)
    unfolding assign_to
    assign_to-IsIr none e s g b v h = failed (may_fail s refl) refl
    assign_to-IsIr (some (name, array_access type index)) e s g b v h =
        added-Moves r.ir v h >>= λ x g1 m1.
        added-Moves (l.index name type index e) m1.valid m1.here >>= λ y g2 m2.
        create_var_name-Moves m2.valid m2.here >>= λ d g3 m3.
        pure_lem (Moves-trans m1 (Moves-trans m2 m3))
    assign_to-IsIr (some (name, identifier is_array)) e s g b v h =
        added-Moves l.ir v h >>= λ x g1 m1.
        assigned-Moves right.lvalue _ g1 x.1 m1.valid m1.here >>= λ y g2 m2.
        pure_lem (Moves-trans m1 m2)

    pub assignment_operator-IsIr :
        (total ≡ true → is_some left.lvalue ≡ true) → IsIr total (assignment_operator left right)
    unfolding assignment_operator
    assignment_operator-IsIr s = assign_to-IsIr left.lvalue refl s

    pub operate_on-IsIr :
        (kind : String → String → Kind)
        → (total ≡ true → is_some (symbol_name left) ≡ true)
        → IsIr total (operate_on kind left right)
    unfolding operate_on
    operate_on-IsIr kind s g b v h = added-Moves r.ir v h >>= λ x g1 m1.
        create_var_name-Moves m1.valid m1.here >>= λ t g2 m2.
        added-Moves l.ir m2.valid m2.here >>= λ y g3 m3.
        add_to-Moves m3.valid _ m3.here >>= λ z g4 m4.
        not_null-Moves _ m4.valid m4.here s >>= λ name g5 m5.
        pure_lem (Moves-trans m1 (Moves-trans m2 (Moves-trans m3 (Moves-trans m4 m5))))

  module _ {operand : Value} (o : IsValue total operand) (kind : String → String → Kind)
      (s : total ≡ true → is_some (symbol_name operand) ≡ true) where
    pub step_before-IsIr : IsIr total (step_before kind operand)
    unfolding step_before
    step_before-IsIr g b v h = create_var_name-Moves v h >>= λ t g1 m1.
        added-Moves o.ir m1.valid m1.here >>= λ x g2 m2.
        add_to-Moves m2.valid _ m2.here >>= λ y g3 m3.
        not_null-Moves _ m3.valid m3.here s >>= λ name g4 m4.
        pure_lem (Moves-trans m1 (Moves-trans m2 (Moves-trans m3 m4)))

    pub step_after-IsIr : IsIr total (step_after kind operand)
    unfolding step_after
    step_after-IsIr g b v h = create_var_name-Moves v h >>= λ old g1 m1.
        not_null-Moves _ m1.valid m1.here s >>= λ name g2 m2.
        add_to-Moves m2.valid _ m2.here >>= λ y g3 m3.
        create_var_name-Moves m3.valid m3.here >>= λ t g4 m4.
        added-Moves o.ir m4.valid m4.here >>= λ x g5 m5.
        add_to-Moves m5.valid _ m5.here >>= λ z g6 m6.
        add_to-Moves m6.valid _ m6.here >>= λ w g7 m7. pure_lem (
          Moves-trans m1
            (Moves-trans m2 (Moves-trans m3 (Moves-trans m4 (Moves-trans m5 (Moves-trans m6 m7))))))

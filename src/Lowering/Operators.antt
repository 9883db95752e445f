-- ===== src/Lowering/Operators.antt =====
-- src/ast/operators: the operators that compute a value keep a valid graph valid.
use caramel.Prelude.{refl, Bool, String}
use caramel.Types.{PrimaryType}
use caramel.Ir.{Kind}
use caramel.Graph.Ensured.{◌>>=◌, pure_lem}
use caramel.Graph.Extends.{Moves-trans}
use caramel.Graph.Operations.{create_var_name-Moves}
use caramel.Code.{Value, GetIr, value}
use caramel.Code.Operators.{operate, pre_neg_operator}
use caramel.Lowering.{IsIr, IsValue, added-Moves}

module _ {total : Bool} where
  pub value-IsValue :
      (type : PrimaryType) (get : GetIr) → IsIr total get → IsValue total (value type get)
  value-IsValue type get h = record {
    ir = h;
    blocks = λ e. absurd (cc);
    unbuilt = λ e g. refl;
    index = λ name t i e. absurd (cc);
  }

  module _ {left right : Value} (l : IsValue total left) (r : IsValue total right) where
    pub operate-IsIr : (kind : String → String → Kind) → IsIr total (operate kind left right)
    unfolding operate
    operate-IsIr kind g b v h = added-Moves l.ir v h >>= λ x g1 m1.
        added-Moves r.ir m1.valid m1.here >>= λ y g2 m2.
        create_var_name-Moves m2.valid m2.here >>= λ name g3 m3.
        pure_lem (Moves-trans m1 (Moves-trans m2 m3))

  pub pre_neg_operator-IsIr :
      {operand : Value} → IsValue total operand → IsIr total (pre_neg_operator operand)
  unfolding pre_neg_operator
  pre_neg_operator-IsIr o g b v h = added-Moves o.ir v h >>= λ x g1 m1.
      create_var_name-Moves m1.valid m1.here >>= λ name g2 m2. pure_lem (Moves-trans m1 m2)

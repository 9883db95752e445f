-- ===== src/Syntax/Elements.antt =====
-- AssignmentOperator.cpp, PlusAssignmentOperator.cpp and the other operators that assign: what they do
-- with the elements of arrays.

use caramel.Prelude.{
  ℕ, ◌≤◌, ◌<◌, ◌≡◌, refl, sym, ◌∙◌, ap, true, false, String, none, some, inl, inr,
}
use caramel.Types.{PrimaryType}
use caramel.Ir.{Instruction, Kind}
use caramel.Graph.{Graph, Lower, not_null}
use caramel.Graph.Ensured.{Ensured, done, failed, ◌>>=◌, pure_lem}
use caramel.Graph.Extends.{IsValid}
use caramel.Code.{Value}
use caramel.Code.Atoms.{array_access_value}
use caramel.Code.Assignments.{operate_on, symbol_name}
use caramel.Lowering.{option_cases}
use caramel.Lowering.Assignments.{operate_on-IsIr}
use caramel.Syntax.{Expression, array_access, value_of}
use caramel.Syntax.Lowerable.{is_lowerable}
use caramel.Syntax.Values.{value_of-IsValue, symbol_name-found}

-- Any part of the construction.
any : {A : Type 0} (part : Lower A) (g : Graph) → Ensured false part g (λ _ _. Unit {0})
any part g = elim (option_cases (part g)) [
  | inl ((a, g'), e) ↦ done a g' e tt
  | inr e ↦ failed refl e
]

named :
    (left : Value) (name : String) (g : Graph)
    → symbol_name left ≡ some name
    → Ensured false (not_null (symbol_name left)) g (λ n _. n ≡ name)
named left name g h = rw h (pure_lem refl)

operate_on-destination :
    (kind : String → String → Kind) (left right : Value) (name : String) (b : ℕ) (g : Graph)
    → symbol_name left ≡ some name
    → Ensured false (operate_on kind left right b) g (λ x _. x.0.return_name ≡ name)
unfolding operate_on
operate_on-destination kind left right name b g h = any _ g >>= λ x g1 _. any _ g1 >>= λ t g2 _.
    any _ g2 >>= λ y g3 _. any _ g3 >>= λ z g4 _. named left name g4 h >>= λ n g5 e. pure_lem e

symbol_name-element :
    (name : String) (type : PrimaryType) (index : Value)
    → symbol_name (array_access_value name type index) ≡ some name
unfolding symbol_name
symbol_name-element name type index = refl

returned :
    (p q : (Instruction × ℕ) × Graph) → some p ≡ some q → p.0.0.return_name ≡ q.0.0.return_name
returned p q h = ap (λ x. elim x [ some y ↦ y.0.0.return_name | none ↦ p.0.0.return_name ]) h

-- For a lowerable index and a lowerable right operand, a graph whose exits and roots are blocks of it,
-- and a block of it: an operator that assigns to an element and reads it, like `+=`, returns an
-- instruction, whose destination has the name of the array, which is the slot of its first element,
-- whatever the index is.
pub operate_on-array_access :
    (kind : String → String → Kind) (name : String) (type : PrimaryType) (index right : Expression)
    (b : ℕ) (g : Graph)
    → is_lowerable index ≡ true
    → is_lowerable right ≡ true
    → IsValid g
    → (0 < b) × (b ≤ g.next_block_number)
    → (i : Instruction) × (b' : ℕ) × (g' : Graph) × (operate_on kind
          (value_of (array_access name type index))
          (value_of right)
          b
          g
        ≡ some ((i, b'), g'))
      × (i.return_name ≡ name)
unfolding value_of is_lowerable
operate_on-array_access kind name type index right b g hi hr v l =
    let e = array_access name type index in
    let k = value_of-IsValue {total = true} e (λ t. hi) in
    let r = value_of-IsValue {total = true} right (λ t. hr) in
    elim (operate_on-IsIr k r kind (λ t. symbol_name-found (value_of e) refl) g b v l) [
      | failed t ran ↦ absurd (cc (t))
      | done (i, b') g' ran m ↦
          elim (operate_on-destination kind (value_of e) (value_of right) name b g
            (symbol_name-element name type _)) [
              | failed t ran' ↦ absurd (cc (ran, ran'))
              | done (j, b'') g'' ran' n ↦
                  (i, b', g', ran, returned ((i, b'), g') ((j, b''), g'') (sym ran ∙ ran') ∙ n)
            ]
    ]

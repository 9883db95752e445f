-- ===== src/Lowering/Logic.antt =====
-- ConjunctionOperator.cpp, DisjunctionOperator.cpp: the blocks of the operators, and the block that is
-- current behind them.
use caramel.Prelude.{ℕ, inl, inr, Bool, Option, some, arith, Bool-cases}
use caramel.Graph.{Graph, Lower}
use caramel.Graph.Ensured.{Ensured, ◌>>=◌, pure_lem, read, weaken}
use caramel.Graph.Extends.{
  IsGenerated, IsValid, Extends, Extends-trans, IsFree, Moves-Extends, Moves-IsFree, Extends-IsFree,
}
use caramel.Graph.Operations.{
  named_block-Extends, set_exit_when_true-Extends, set_exit_when_false-Extends, new_block-IsFree,
}
use caramel.Code.{Value}
use caramel.Code.Logic.{left_operand, right_operand}
use caramel.Lowering.{IsValue, added-Moves, Builds-Extends, first-IsFree, last-IsFree}

pub free-IsGenerated : {low pinned n b : ℕ} → IsFree low pinned n b → IsGenerated n (some b)
free-IsGenerated f = (omega (arith, f.above), f.generated)

-- A setter of an exit.
abbrev pub Sets : Bool → (ℕ → Option ℕ → Lower (Unit {0})) → Type 0
Sets total set =
    (low pinned : ℕ) (g : Graph) (b : ℕ)
    → IsValid g
    → IsFree low pinned g.next_block_number b
    → (exit : Option ℕ) → IsGenerated g.next_block_number exit
    → Ensured total (set b exit) g (λ _ g'. Extends low pinned g g')

module _ {total : Bool} {low pinned : ℕ} where
  pub left_operand-Extends :
      {e : Value}
      → IsValue total e
      → (g : Graph) (start : ℕ) → IsValid g
      → IsFree low pinned g.next_block_number start
      → Ensured total (left_operand e start) g (λ x g'.
        IsFree low pinned g'.next_block_number x.0
        × IsFree low pinned g'.next_block_number x.1
        × Extends low pinned g g')
  unfolding left_operand
  left_operand-Extends {e = e} h g start v f = elim (Bool-cases e.code.should_return_an_ir) [
    | inl t ↦ rw t (
        added-Moves h.ir v (free-IsGenerated f) >>= λ x g1 m1.
        pure_lem (Moves-IsFree f m1, Moves-IsFree f m1, Moves-Extends f m1))
    | inr n ↦ rw n (
        h.blocks n g v >>= λ x g1 b1.
        let e1 = Builds-Extends b1 in
        let first = first-IsFree b1 f.low_generated f.pinned_generated in
        let last = last-IsFree b1 f.low_generated f.pinned_generated in
        read _ _ (
          set_exit_when_true-Extends e1.valid last _ (e1.valid.closed start).0 >>= λ _ g2 e2.
          read _ _ (
            set_exit_when_false-Extends e2.valid (Extends-IsFree e2 last) _
              (e2.valid.closed start).1
            >>= λ _ g3 e3.
                let e23 = Extends-trans e2 e3 in
                pure_lem
                  (Extends-IsFree e23 first, Extends-IsFree e23 last, Extends-trans e1 e23))))
  ]

  pub right_operand-Extends :
      (set : ℕ → Option ℕ → Lower (Unit {0})) {e : Value} (number : ℕ)
      → Sets total set
      → IsValue total e
      → (g : Graph) {on_true on_false last_left : ℕ} → IsValid g
      → IsFree low pinned g.next_block_number on_true
      → IsFree low pinned g.next_block_number on_false
      → IsFree low pinned g.next_block_number last_left
      → Ensured total
          (right_operand set number e on_true on_false last_left)
          g
          (λ _ g'. Extends low pinned g g')
  unfolding right_operand
  right_operand-Extends set {e = e} number sets h g v t f l =
      elim (Bool-cases e.code.should_return_an_ir) [
        | inl y ↦ rw y (
            named_block-Extends v _ >>= λ middle g1 (id, next, _, _, e1).
            let fm = new_block-IsFree l.low_generated l.pinned_generated id next in
            added-Moves h.ir e1.valid (free-IsGenerated fm) >>= λ x g2 m2.
            let fx = Moves-IsFree fm m2 in
            let e2 = Extends-trans e1 (Moves-Extends fm m2) in
            set_exit_when_true-Extends m2.valid fx _ (free-IsGenerated (Extends-IsFree e2 t))
            >>= λ _ g3 e3.
                set_exit_when_false-Extends e3.valid (Extends-IsFree e3 fx) _
                  (free-IsGenerated (Extends-IsFree (Extends-trans e2 e3) f))
                >>= λ _ g4 e4.
                    let e34 = Extends-trans e3 e4 in
                    let e24 = Extends-trans e2 e34 in
                    weaken
                      (sets _ _ g4 _ e4.valid (Extends-IsFree e24 l) _
                        (free-IsGenerated (Extends-IsFree e34 fx)))
                      (λ _ g5 e5. Extends-trans e24 e5))
        | inr n ↦ rw n (
            h.blocks n g v >>= λ x g1 b1.
            let e1 = Builds-Extends b1 in
            let first = first-IsFree b1 l.low_generated l.pinned_generated in
            let last = last-IsFree b1 l.low_generated l.pinned_generated in
            sets _ _ g1 _ e1.valid (Extends-IsFree e1 l) _ (free-IsGenerated first) >>= λ _ g2 e2.
            let e12 = Extends-trans e1 e2 in
            set_exit_when_true-Extends e2.valid (Extends-IsFree e2 last) _
              (free-IsGenerated (Extends-IsFree e12 t))
            >>= λ _ g3 e3.
                let e13 = Extends-trans e12 e3 in
                weaken
                  (set_exit_when_false-Extends e3.valid (Extends-IsFree (Extends-trans e2 e3) last)
                    _ (free-IsGenerated (Extends-IsFree e13 f)))
                  (λ _ g4 e4. Extends-trans e13 e4))
      ]

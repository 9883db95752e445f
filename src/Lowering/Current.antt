-- ===== src/Lowering/Current.antt =====
-- ConjunctionOperator.cpp, DisjunctionOperator.cpp: the blocks of both operators are built on a valid
-- graph, and `getIR` moves to the last of them, which takes the exits of the current block.
use caramel.Prelude.{
  subst, ℕ, ◌≡◌, ◌≢◌, inl, inr, refl, sym, ◌∙◌, ap, Bool, true, Option, none, some, arith, is_some,
}
use caramel.Graph.{Graph, Lower, set_exit_when_true, set_exit_when_false, not_null}
use caramel.Graph.Ensured.{Ensured, ◌>>=◌, pure_lem, weaken, done, read}
use caramel.Graph.Extends.{IsRooted-≤, IsValid, Extends, Extends-trans, Moves, Extends-IsFree}
use caramel.Graph.Operations.{set_exit_when_true-Extends, set_exit_when_false-Extends}
use caramel.Graph.Exits.{
  set_exit_when_true-IsExited, set_exit_when_false-IsExited, if_exit_when_true-IsExited,
  if_exit_when_false-IsExited,
}
use caramel.Code.{Value, GetBasicBlock}
use caramel.Code.Logic.{
  last_of, count_conjunction, count_disjunction, short_circuit, conjunction_blocks,
  disjunction_blocks, conjunction_operator, disjunction_operator, short_circuit_ir, logic_value,
}
use caramel.Lowering.{IsValue, Builds, IsIr}
use caramel.Lowering.Logic.{Sets, left_operand-Extends, right_operand-Extends}
use caramel.Lowering.ShortCircuit.{lowered, operator_blocks-IsOpened}

-- The blocks of an operator, whose last has an instruction.
IsJoined : Graph → ℕ → ℕ → Graph → Type 0
IsJoined g first last g' =
    Builds g first last g' × (is_some (last_of (g'.blocks last).instructions) ≡ true)

-- What counts an operator.
Counts : Bool → Lower ℕ → Type 0
Counts total count =
    (g : Graph)
    → IsValid g
    → Ensured total count g (λ _ g'. Extends g.next_block_number g.next_block_number g g')

module _ {total : Bool} where
  module _ {left right : Value} (l : IsValue total left) (r : IsValue total right) where
    short_circuit-IsJoined :
        (count : Lower ℕ) (set : ℕ → Option ℕ → Lower (Unit {0}))
        → Counts total count
        → Sets total set
        → (g : Graph) → IsValid g
        → Ensured total (short_circuit count set left right) g (λ x g'. IsJoined g x.0 x.1 g')
    unfolding short_circuit IsJoined Counts
    short_circuit-IsJoined count set c sets g v = c g v >>= λ number g1 e1.
        operator_blocks-IsOpened number g1 e1.valid >>= λ x g2 o.
        left_operand-Extends l g2 x.0 o.extends.valid o.at_start >>= λ y g3 (f0, f1, e3).
        right_operand-Extends set number sets r g3 e3.valid (Extends-IsFree e3 o.at_true)
          (Extends-IsFree e3 o.at_false) f1
        >>= λ _ g4 e4.
            let e = Extends-trans e3 e4 in
            let end = x.3 in
            let same = e.kept end o.at_start.pinned_generated (inr refl) in
            pure_lem (
              record {
                extends =
                    Extends-trans e1
                      (Extends-trans (lowered e1.grows o.extends) (lowered e1.grows e));
                first_new = omega (arith, e1.grows, f0.above);
                first_generated = omega (arith, f0.generated, e4.grows);
                last_new = omega (arith, e1.grows, o.end_new);
                last_generated = omega (arith, f0.pinned_generated, e4.grows);
                no_when_true = ap (λ b. b.exit_when_true) same ∙ o.no_when_true;
                no_when_false = ap (λ b. b.exit_when_false) same ∙ o.no_when_false;
              },
              rw same o.last,
            )

    conjunction_blocks-IsJoined :
        (g : Graph)
        → IsValid g
        → Ensured total (conjunction_blocks left right) g (λ x g'. IsJoined g x.0 x.1 g')
    unfolding conjunction_blocks count_conjunction Counts
    conjunction_blocks-IsJoined =
        short_circuit-IsJoined count_conjunction set_exit_when_true
          (λ g v. done _ _ refl (record {
            grows = omega arith;
            kept = λ k h p. refl;
            valid = record { closed = v.closed; rooted = IsRooted-≤ _ (omega arith) v.rooted };
            ends = refl;
            context = refl;
          }))
          (λ low pinned g b v f. set_exit_when_true-Extends v f)

    disjunction_blocks-IsJoined :
        (g : Graph)
        → IsValid g
        → Ensured total (disjunction_blocks left right) g (λ x g'. IsJoined g x.0 x.1 g')
    unfolding disjunction_blocks count_disjunction Counts
    disjunction_blocks-IsJoined =
        short_circuit-IsJoined count_disjunction set_exit_when_false
          (λ g v. done _ _ refl (record {
            grows = omega arith;
            kept = λ k h p. refl;
            valid = record { closed = v.closed; rooted = IsRooted-≤ _ (omega arith) v.rooted };
            ends = refl;
            context = refl;
          }))
          (λ low pinned g b v f. set_exit_when_false-Extends v f)

  -- What is not null is found.
  found :
      {A : Type 0} {g : Graph} (x : Option A)
      → is_some x ≡ true
      → Ensured total (not_null x) g (λ a g'. g' ≡ g)
  found none e = absurd (cc)
  found (some a) e = pure_lem refl

  short_circuit_ir-IsIr :
      {get : GetBasicBlock}
      → ((g : Graph) → IsValid g → Ensured total get g (λ x g'. IsJoined g x.0 x.1 g'))
      → IsIr total (short_circuit_ir get)
  unfolding short_circuit_ir IsJoined
  short_circuit_ir-IsIr built g b v h = built g v >>= λ x g1 (b1, last).
      let cur = b1.extends.kept b h.1 (inl h.1) in
      let apart : x.1 ≢ b = λ e. omega (arith, e, h, b1.last_new) in
      let v1 = b1.extends.valid in
      read _ _ (
        read _ _ (
          if_exit_when_true-IsExited v1 x.1 _ (v1.closed b).0 b1.no_when_true >>= λ _ g2 s2.
          if_exit_when_false-IsExited s2.valid x.1 (g1.blocks b).exit_when_false
            (rw s2.next (v1.closed b).1) (s2.at_false ∙ b1.no_when_false)
          >>= λ _ g3 s3.
              set_exit_when_true-IsExited s3.valid b (some x.0)
                (omega (arith, b1.first_new), omega (arith, b1.first_generated, s2.next, s3.next))
              >>= λ _ g4 s4. set_exit_when_false-IsExited s4.valid b none tt >>= λ _ g5 s5.
                  let same : g5.blocks x.1 ≡ g3.blocks x.1 =
                    s5.kept x.1 apart ∙ s4.kept x.1 apart in
                  read _ _ (
                    found (last_of (g5.blocks x.1).instructions)
                      (rw (same, s3.instructions, s2.instructions) last)
                    >>= λ i g6 e6. pure_lem (
                        subst (λ k. Moves g b k x.1) (sym e6)
                          (record {
                            grows =
                                omega (arith, b1.extends.grows, s2.next, s3.next, s4.next, s5.next);
                            here = (
                              omega (arith, b1.last_new),
                              omega (arith, b1.last_generated, s2.next, s3.next, s4.next, s5.next),
                            );
                            from = inr b1.last_new;
                            kept = λ k l n.
                                (let far : k ≢ x.1 = λ e. omega (arith, e, l, b1.last_new) in
                                  s5.kept k n
                                  ∙ s4.kept k n
                                  ∙ s3.kept k far
                                  ∙ s2.kept k far
                                  ∙ b1.extends.kept k l (inl l));
                            when_true =
                                ap (λ y. y.exit_when_true) same
                                ∙ s3.at_true
                                ∙ s2.at_true
                                ∙ ap (λ y. y.exit_when_true) cur;
                            when_false =
                                ap (λ y. y.exit_when_false) same
                                ∙ s3.at_false
                                ∙ ap (λ y. y.exit_when_false) cur;
                            valid = s5.valid;
                            ends = s5.ends ∙ s4.ends ∙ s3.ends ∙ s2.ends ∙ b1.extends.ends;
                            context =
                                s5.context ∙ s4.context ∙ s3.context ∙ s2.context
                                ∙ b1.extends.context;
                          })))))

  logic_value-IsValue :
      {get : GetBasicBlock} (left right : Value)
      → ((g : Graph) → IsValid g → Ensured total get g (λ x g'. IsJoined g x.0 x.1 g'))
      → IsValue total (logic_value get left right)
  unfolding IsJoined
  logic_value-IsValue left right built = record {
    ir = short_circuit_ir-IsIr built;
    blocks = λ e g v. weaken (built g v) (λ x g' (b, _). b);
    unbuilt = λ e. absurd (cc);
    index = λ name type i e. absurd (cc);
  }

  module _ {left right : Value} (l : IsValue total left) (r : IsValue total right) where
    pub conjunction_operator-IsValue : IsValue total (conjunction_operator left right)
    conjunction_operator-IsValue = logic_value-IsValue left right (conjunction_blocks-IsJoined l r)

    pub disjunction_operator-IsValue : IsValue total (disjunction_operator left right)
    disjunction_operator-IsValue = logic_value-IsValue left right (disjunction_blocks-IsJoined l r)

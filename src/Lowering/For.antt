-- ===== src/Lowering/For.antt =====
-- ForBlock.cpp: the blocks of a loop are built on a valid graph, and the stack of the loops around is left
-- as it was.
use caramel.Prelude.{
  refl, ◌≡◌, Bool, true, false, ◌||◌, not, List, All, arith, Bool-cases, inl, inr, ℕ, some,
}
use caramel.Graph.{Graph}
use caramel.Graph.Ensured.{Ensured, ◌>>=◌, pure_lem, failed, weaken}
use caramel.Graph.Extends.{
  IsValid, Extends, IsFree, IsGenerated, Extends-trans, IsFree-≤, Extends-IsFree,
}
use caramel.Graph.Operations.{
  named_block-Extends, set_exit_when_true-Extends, set_exit_when_false-Extends,
}
use caramel.Code.{Code, Value}
use caramel.Code.Control.{for_block, link_for}
use caramel.Lowering.{IsValue, IsValue-IsCode, IsCode, IsBuilt, Builds, may_fail}
use caramel.Lowering.Logic.{free-IsGenerated}
use caramel.Lowering.Control.{
  HasEnd-Extends, add_statement-Steps, add_statements-Steps, loop_condition-Steps,
}
use caramel.Lowering.Blocks.{IsEnd, IsEnd-IsFree, Extends-Builds, push-IsPushed, pop-Extends}
use caramel.Lowering.Loops.{pushed-IsFree, pushed-HasEnd, pushed-IsEnd}

-- The blocks of the initialisation, where they are taken for those of the condition.
condition_blocks :
    {total : Bool} {a : Value} (c : Value)
    → IsValue total a
    → (total ≡ true → c.code.should_return_an_ir || not a.code.should_return_an_ir ≡ true)
    → c.code.should_return_an_ir ≡ false
    → (g : Graph) → IsValid g
    → Ensured total a.code.get_basic_block g (λ x g'. Builds g x.0 x.1 g')
condition_blocks {a = a} c first agree n g v = elim (Bool-cases a.code.should_return_an_ir) [
  | inr e ↦ first.blocks e g v
  | inl e ↦ failed (may_fail agree (rw (n, e) refl)) (first.unbuilt e g)
]

module _ {total : Bool} {low pinned : ℕ} {g : Graph} {init block on_true increment end : ℕ}
    (v : IsValid g) (at_init : IsFree low pinned g.next_block_number init)
    (at_block : IsFree low pinned g.next_block_number block)
    (at_true : IsFree low pinned g.next_block_number on_true)
    (at_increment : IsFree low pinned g.next_block_number increment)
    (at_end : IsGenerated g.next_block_number (some end)) where
  link_for-Extends :
      Ensured total (link_for init block on_true increment end) g (λ _ g'. Extends low pinned g g')
  unfolding link_for
  link_for-Extends =
      set_exit_when_true-Extends v at_init _ (free-IsGenerated at_block) >>= λ _ g1 e1.
      set_exit_when_true-Extends e1.valid (Extends-IsFree e1 at_block) _
        (free-IsGenerated (Extends-IsFree e1 at_true))
      >>= λ _ g2 e2.
          let e12 = Extends-trans e1 e2 in
          set_exit_when_false-Extends e2.valid (Extends-IsFree e12 at_block) _
            (at_end.0, omega (arith, at_end, e12.grows))
          >>= λ _ g3 e3.
              let e13 = Extends-trans e12 e3 in
              set_exit_when_true-Extends e3.valid (Extends-IsFree e13 at_true) _
                (free-IsGenerated (Extends-IsFree e13 at_increment))
              >>= λ _ g4 e4.
                  let e14 = Extends-trans e13 e4 in
                  weaken
                    (set_exit_when_true-Extends e4.valid (Extends-IsFree e14 at_increment) _
                      (free-IsGenerated (Extends-IsFree e14 at_block)))
                    (λ _ g5 e5. Extends-trans e14 e5)

module _ {total inside : Bool} {a c s : Value} (first : IsValue total a) (k : IsValue total c)
    (step : IsValue total s)
    (agree : total ≡ true → c.code.should_return_an_ir || not a.code.should_return_an_ir ≡ true)
    (body : List Code) (ss : All (IsCode total true) body) where
  pub for_block-IsBuilt : IsBuilt total inside (for_block a c s body)
  unfolding for_block
  for_block-IsBuilt g v h =
      let n = g.next_block_number in
      named_block-Extends v _ >>= λ init g1 (q, n1, _, _, e1).
      named_block-Extends e1.valid _ >>= λ block g2 (r, n2, _, _, e2).
      named_block-Extends e2.valid _ >>= λ on_true g3 (t, n3, _, _, e3).
      named_block-Extends e3.valid _ >>= λ increment g4 (i, n4, _, _, e4).
      named_block-Extends e4.valid _ >>= λ end g5 (d, n5, no_true, no_false, e5).
      let e15 = Extends-trans e1 (Extends-trans e2 (Extends-trans e3 (Extends-trans e4 e5))) in
      let last : IsEnd n end g5 = record {
        above = omega (arith, q, n1, r, n2, t, n3, i, n4, d);
        generated = omega (arith, n5);
        no_when_true = no_true;
        no_when_false = no_false;
      } in
      push-IsPushed end e5.valid >>= λ _ g6 p.
      let at_init =
        pushed-IsFree p
          (IsEnd-IsFree last (omega (arith, q)) (omega (arith, n1, r, n2, t, n3, i, n4, d))) in
      let at_block =
        pushed-IsFree p
          (IsEnd-IsFree last (omega (arith, q, n1, r)) (omega (arith, n2, t, n3, i, n4, d))) in
      let at_true =
        pushed-IsFree p
          (IsEnd-IsFree last (omega (arith, q, n1, r, n2, t)) (omega (arith, n3, i, n4, d))) in
      let at_increment =
        pushed-IsFree p
          (IsEnd-IsFree last (omega (arith, q, n1, r, n2, t, n3, i)) (omega (arith, n4, d))) in
      let at_end = pushed-IsEnd p last in
      link_for-Extends p.valid at_init at_block at_true at_increment at_end >>= λ _ g11 e11.
      let inner = pushed-HasEnd p in
      add_statement-Steps _ (IsValue-IsCode total true a first) g11 init e11.valid
        (Extends-IsFree e11 at_init) (HasEnd-Extends e11 inner)
      >>= λ init' g12 (f12, e12).
          let e612 = Extends-trans e11 e12 in
          loop_condition-Steps c.code a.code.get_basic_block _ (λ _. k.ir)
            (condition_blocks c first agree) g12 e12.valid (Extends-IsFree e612 at_block)
            (free-IsGenerated (Extends-IsFree e612 at_true))
            (at_end.0, omega (arith, at_end, e612.grows))
          >>= λ _ g13 (_, e13).
              let e613 = Extends-trans e612 e13 in
              add_statements-Steps _ body ss g13 on_true e13.valid (Extends-IsFree e613 at_true)
                (HasEnd-Extends e613 inner)
              >>= λ _ g14 (_, e14).
                  let e614 = Extends-trans e613 e14 in
                  add_statement-Steps _ (IsValue-IsCode total true s step) g14 increment e14.valid
                    (Extends-IsFree e614 at_increment) (HasEnd-Extends e614 inner)
                  >>= λ _ g15 (_, e15').
                      pop-Extends p (Extends-trans e614 e15') >>= λ _ g16 (next, e16). pure_lem (
                        Extends-Builds e15 last e16
                          (IsFree-≤ f12 (omega (arith, e13.grows, e14.grows, e15'.grows, next))))

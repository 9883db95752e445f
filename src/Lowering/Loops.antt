-- ===== src/Lowering/Loops.antt =====
-- WhileBlock.cpp, Do_WhileBlock.cpp, ForBlock.cpp: the blocks of a loop are built on a valid graph, and
-- the stack of the loops around is left as it was.
use caramel.Prelude.{ℕ, ap, Bool, true, some, List, All, arith}
use caramel.Graph.{Graph}
use caramel.Graph.Ensured.{◌>>=◌, pure_lem}
use caramel.Graph.Extends.{IsGenerated, Extends-trans, IsFree, IsFree-≤, Extends-IsFree}
use caramel.Graph.Operations.{
  named_block-Extends, set_exit_when_true-Extends, set_exit_when_false-Extends,
}
use caramel.Code.{Code, Value}
use caramel.Code.Control.{while_block, do_while_block}
use caramel.Lowering.{IsValue, IsCode, IsBuilt, HasEnd, is_cons}
use caramel.Lowering.Logic.{free-IsGenerated}
use caramel.Lowering.Control.{HasEnd-Extends, add_statements-Steps, loop_condition-Steps}
use caramel.Lowering.Blocks.{
  IsPushed, IsEnd, IsEnd-IsGenerated, IsEnd-IsFree, Extends-Builds, push-IsPushed, pop-Extends,
}

module _ {end : ℕ} {g g' : Graph} (p : IsPushed end g g') where
  pub pushed-IsFree :
      {low pinned b : ℕ}
      → IsFree low pinned g.next_block_number b
      → IsFree low pinned g'.next_block_number b
  pushed-IsFree f = IsFree-≤ f (omega (arith, p.next))

  pub pushed-HasEnd : HasEnd true g'
  pushed-HasEnd t = ap is_cons p.ends

  pub pushed-IsEnd : {n : ℕ} → IsEnd n end g → IsGenerated g'.next_block_number (some end)
  pushed-IsEnd d = IsEnd-IsGenerated d (omega (arith, p.next))

module _ {total inside : Bool} {c : Value} (k : IsValue total c) (body : List Code)
    (ss : All (IsCode total true) body) where
  pub while_block-IsBuilt : IsBuilt total inside (while_block c body)
  unfolding while_block
  while_block-IsBuilt g v h =
      let n = g.next_block_number in
      named_block-Extends v _ >>= λ block g1 (s, n1, _, _, e1).
      named_block-Extends e1.valid _ >>= λ on_true g2 (t, n2, _, _, e2).
      named_block-Extends e2.valid _ >>= λ end g3 (d, n3, no_true, no_false, e3).
      let e13 = Extends-trans e1 (Extends-trans e2 e3) in
      let last : IsEnd n end g3 = record {
        above = omega (arith, s, n1, t, n2, d);
        generated = omega (arith, n3);
        no_when_true = no_true;
        no_when_false = no_false;
      } in
      push-IsPushed end e3.valid >>= λ _ g4 p.
      let at_block =
        pushed-IsFree p (IsEnd-IsFree last (omega (arith, s)) (omega (arith, n1, t, n2, d))) in
      let at_true =
        pushed-IsFree p (IsEnd-IsFree last (omega (arith, s, n1, t)) (omega (arith, n2, d))) in
      let at_end = pushed-IsEnd p last in
      set_exit_when_true-Extends p.valid at_block _ (free-IsGenerated at_true) >>= λ _ g5 e5.
      set_exit_when_false-Extends e5.valid (Extends-IsFree e5 at_block) _
        (at_end.0, omega (arith, at_end, e5.grows))
      >>= λ _ g6 e6.
          let e46 = Extends-trans e5 e6 in
          set_exit_when_true-Extends e6.valid (Extends-IsFree e46 at_true) _
            (free-IsGenerated (Extends-IsFree e46 at_block))
          >>= λ _ g7 e7.
              let e47 = Extends-trans e46 e7 in
              loop_condition-Steps c.code c.code.get_basic_block _ (λ _. k.ir) k.blocks g7 e7.valid
                (Extends-IsFree e47 at_block) (free-IsGenerated (Extends-IsFree e47 at_true))
                (at_end.0, omega (arith, at_end, e47.grows))
              >>= λ block' g8 (f8, e8).
                  let e48 = Extends-trans e47 e8 in
                  add_statements-Steps _ body ss g8 on_true e8.valid (Extends-IsFree e48 at_true)
                    (HasEnd-Extends e48 (pushed-HasEnd p))
                  >>= λ _ g9 (_, e9). pop-Extends p (Extends-trans e48 e9) >>= λ _ g10 (next, e10).
                      pure_lem (
                        Extends-Builds e13 last e10
                          (IsFree-≤ (Extends-IsFree e9 f8) (omega (arith, next))))

  pub do_while_block-IsBuilt : IsBuilt total inside (do_while_block c body)
  unfolding do_while_block
  do_while_block-IsBuilt g v h =
      let n = g.next_block_number in
      named_block-Extends v _ >>= λ block g1 (s, n1, _, _, e1).
      named_block-Extends e1.valid _ >>= λ action g2 (t, n2, _, _, e2).
      named_block-Extends e2.valid _ >>= λ end g3 (d, n3, no_true, no_false, e3).
      let e13 = Extends-trans e1 (Extends-trans e2 e3) in
      let last : IsEnd n end g3 = record {
        above = omega (arith, s, n1, t, n2, d);
        generated = omega (arith, n3);
        no_when_true = no_true;
        no_when_false = no_false;
      } in
      push-IsPushed end e3.valid >>= λ _ g4 p.
      let at_block =
        pushed-IsFree p (IsEnd-IsFree last (omega (arith, s)) (omega (arith, n1, t, n2, d))) in
      let at_action =
        pushed-IsFree p (IsEnd-IsFree last (omega (arith, s, n1, t)) (omega (arith, n2, d))) in
      let at_end = pushed-IsEnd p last in
      set_exit_when_true-Extends p.valid at_action _ (free-IsGenerated at_block) >>= λ _ g5 e5.
      set_exit_when_true-Extends e5.valid (Extends-IsFree e5 at_block) _
        (free-IsGenerated (Extends-IsFree e5 at_action))
      >>= λ _ g6 e6.
          let e46 = Extends-trans e5 e6 in
          set_exit_when_false-Extends e6.valid (Extends-IsFree e46 at_block) _
            (at_end.0, omega (arith, at_end, e46.grows))
          >>= λ _ g7 e7.
              let e47 = Extends-trans e46 e7 in
              loop_condition-Steps c.code c.code.get_basic_block _ (λ _. k.ir) k.blocks g7 e7.valid
                (Extends-IsFree e47 at_block) (free-IsGenerated (Extends-IsFree e47 at_action))
                (at_end.0, omega (arith, at_end, e47.grows))
              >>= λ block' g8 (f8, e8).
                  let e48 = Extends-trans e47 e8 in
                  add_statements-Steps _ body ss g8 action e8.valid (Extends-IsFree e48 at_action)
                    (HasEnd-Extends e48 (pushed-HasEnd p))
                  >>= λ action' g9 (f9, e9).
                      pop-Extends p (Extends-trans e48 e9) >>= λ _ g10 (next, e10).
                      pure_lem (Extends-Builds e13 last e10 (IsFree-≤ f9 (omega (arith, next))))

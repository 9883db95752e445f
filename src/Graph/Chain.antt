-- ===== src/Graph/Chain.antt =====
-- src/ir/BasicBlock.cpp, `getNewWhenTrueBasicBlock`: a new block between a block and its exits.
use caramel.Prelude.{◌≡◌, ◌≢◌, inl, ap, sym, ◌∙◌, ℕ, Bool, String, some, arith}
use caramel.Graph.{Graph, get_new_when_true_basic_block}
use caramel.Graph.Ensured.{weaken, Ensured, ◌>>=◌, pure_lem, read}
use caramel.Graph.Exits.{
  set_exit_when_true-IsExited, if_exit_when_true-IsExited, if_exit_when_false-IsExited,
  IsExited-Extends,
}
use caramel.Graph.Extends.{IsValid, Extends, Extends-trans, IsFree, Extends-IsFree}
use caramel.Graph.Operations.{named_block-Extends, new_block-IsFree}

module _ {total : Bool} {low pinned : ℕ} {g : Graph} {b : ℕ} (suffix : String) (v : IsValid g)
    (f : IsFree low pinned g.next_block_number b) where
  -- The new block is free, and leads to where the block did.
  pub get_new_when_true_basic_block-exit :
      Ensured total (get_new_when_true_basic_block b suffix) g (λ child g'.
        IsFree low pinned g'.next_block_number child
        × Extends low pinned g g'
        × ((g'.blocks child).exit_when_true ≡ (g.blocks b).exit_when_true))
  unfolding get_new_when_true_basic_block
  get_new_when_true_basic_block-exit =
      named_block-Extends v {low = g.next_block_number} {pinned = pinned} suffix
      >>= λ child g1 (id, next, no_true, no_false, e0).
          let e1 : Extends low pinned g g1 = record {
            grows = e0.grows;
            kept = λ k h p. e0.kept k h (inl h);
            valid = e0.valid;
            ends = e0.ends;
            context = e0.context;
          } in
          let f1 = new_block-IsFree f.low_generated f.pinned_generated id next in
          let old : b ≢ child = λ e. omega (arith, e, f.generated, id) in
          let same = e0.kept b f.generated (inl f.generated) in
          read _ _ (
            if_exit_when_true-IsExited e1.valid child _ (e1.valid.closed b).0 no_true >>= λ _ g2 s2.
            let e2 = IsExited-Extends f1 s2 in
            read _ _ (
              if_exit_when_false-IsExited s2.valid child _ (s2.valid.closed b).1
                (s2.at_false ∙ no_false)
              >>= λ _ g3 s3.
                  let f2 = Extends-IsFree e2 f1 in
                  let e3 = IsExited-Extends f2 s3 in
                  let f3 = Extends-IsFree e3 f2 in
                  let e13 = Extends-trans e1 (Extends-trans e2 e3) in
                  set_exit_when_true-IsExited s3.valid b (some child)
                    (omega (arith, f3.above), f3.generated)
                  >>= λ _ g4 s4.
                      let e4 = IsExited-Extends (Extends-IsFree e13 f) s4 in
                      pure_lem (
                        Extends-IsFree e4 f3,
                        Extends-trans e13 e4,
                        ap (λ x. x.exit_when_true) (s4.kept child (λ e. old (sym e)))
                            ∙ s3.at_true
                            ∙ s2.at_true
                            ∙ ap (λ x. x.exit_when_true) same,
                      )))

  pub get_new_when_true_basic_block-Extends :
      Ensured total
        (get_new_when_true_basic_block b suffix)
        g
        (λ child g'. IsFree low pinned g'.next_block_number child × Extends low pinned g g')
  get_new_when_true_basic_block-Extends =
      weaken get_new_when_true_basic_block-exit (λ child g' (f', e', _). (f', e'))

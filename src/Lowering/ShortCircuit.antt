-- ===== src/Lowering/ShortCircuit.antt =====
-- ConjunctionOperator.cpp, DisjunctionOperator.cpp: the blocks of an operator, and the block that is
-- current behind them.
use caramel.Prelude.{
  is_some, true, List, [], ◌∷◌, ◌++◌, ℕ, ◌⊎◌, ◌≤◌, ◌<◌, ◌≡◌, inl, inr, refl, ◌∙◌, ap, Bool, none,
  some, arith,
}
use caramel.Ir.{Instruction}
use caramel.Graph.{Graph}
use caramel.Graph.Ensured.{Ensured, ◌>>=◌, pure_lem}
use caramel.Graph.Extends.{
  IsGenerated, IsFree-≤, IsValid, Extends, Extends-trans, IsFree, Moves-Extends, Extends-IsFree,
}
use caramel.Graph.Operations.{
  add_to-with_instruction, create_var_name-Moves, add_to-Moves, named_block-Extends,
  set_exit_when_true-Extends, set_exit_when_false-Extends,
}
use caramel.Code.Logic.{last_of, fill_operator, operator_blocks}
use caramel.Lowering.Logic.{free-IsGenerated}

-- The blocks of an operator: the first three may be changed, and the last has no exits.
pub record IsOpened (g : Graph) (start on_true on_false end : ℕ) (g' : Graph) : Type 0 where
  pub extends : Extends g.next_block_number g.next_block_number g g'
  pub at_start : IsFree g.next_block_number end g'.next_block_number start
  pub at_true : IsFree g.next_block_number end g'.next_block_number on_true
  pub at_false : IsFree g.next_block_number end g'.next_block_number on_false
  pub end_new : g.next_block_number < end
  pub no_when_true : (g'.blocks end).exit_when_true ≡ none
  pub no_when_false : (g'.blocks end).exit_when_false ≡ none
  pub last : is_some (last_of (g'.blocks end).instructions) ≡ true

pub lowered :
    {n low pinned : ℕ} {g g' : Graph} → n ≤ low → Extends low pinned g g' → Extends n n g g'
lowered l e = record {
  grows = e.grows;
  kept = λ k h p. e.kept k h (inl (below l p));
  valid = e.valid;
  ends = e.ends;
  context = e.context;
}
  where
    below : {k n low : ℕ} → n ≤ low → (k ≤ n) ⊎ (k ≡ n) → k ≤ low
    below l (inl p) = omega (arith, l, p)
    below l (inr p) = omega (arith, l, p)

last_of-added : (is : List Instruction) (i : Instruction) → is_some (last_of (is ++ i ∷ [])) ≡ true
unfolding last_of
last_of-added [] i = refl
last_of-added (j ∷ []) i = refl
last_of-added (j ∷ k ∷ is) i = last_of-added (k ∷ is) i

module _ {total : Bool} {low pinned : ℕ} {g : Graph} {start on_true on_false end : ℕ}
    (v : IsValid g) (at_start : IsFree low pinned g.next_block_number start)
    (at_true : IsFree low pinned g.next_block_number on_true)
    (at_false : IsFree low pinned g.next_block_number on_false)
    (at_end : IsGenerated g.next_block_number (some end)) where
  fill_operator-Extends :
      Ensured total (fill_operator start on_true on_false end) g (λ _ g'. Extends low pinned g g')
  unfolding fill_operator
  fill_operator-Extends =
      set_exit_when_true-Extends v at_start _ (free-IsGenerated at_true) >>= λ _ g1 e1.
      set_exit_when_false-Extends e1.valid (Extends-IsFree e1 at_start) _
        (free-IsGenerated (Extends-IsFree e1 at_false))
      >>= λ _ g2 e2.
          let e12 = Extends-trans e1 e2 in
          create_var_name-Moves e2.valid (free-IsGenerated (Extends-IsFree e12 at_start))
          >>= λ name g3 m3.
              let e13 = Extends-trans e12 (Moves-Extends (Extends-IsFree e12 at_start) m3) in
              set_exit_when_true-Extends e13.valid (Extends-IsFree e13 at_true) (some end)
                (at_end.0, omega (arith, at_end, e13.grows))
              >>= λ _ g4 e4.
                  let e14 = Extends-trans e13 e4 in
                  add_to-Moves e14.valid _ (free-IsGenerated (Extends-IsFree e14 at_true))
                  >>= λ _ g5 m5.
                      let e15 = Extends-trans e14 (Moves-Extends (Extends-IsFree e14 at_true) m5) in
                      set_exit_when_true-Extends e15.valid (Extends-IsFree e15 at_false) (some end)
                        (at_end.0, omega (arith, at_end, e15.grows))
                      >>= λ _ g6 e6.
                          let e16 = Extends-trans e15 e6 in
                          add_to-Moves e16.valid _ (free-IsGenerated (Extends-IsFree e16 at_false))
                          >>= λ _ g7 m7.
                              pure_lem
                                (Extends-trans e16 (Moves-Extends (Extends-IsFree e16 at_false) m7))

module _ {total : Bool} where
  pub operator_blocks-IsOpened :
      (number : ℕ) (g : Graph)
      → IsValid g
      → Ensured total (operator_blocks number) g (λ (s, t, f, e) g'. IsOpened g s t f e g')
  unfolding operator_blocks
  operator_blocks-IsOpened number g v =
      let n = g.next_block_number in
      named_block-Extends v _ >>= λ start g1 (s, n1, _, _, e1).
      named_block-Extends e1.valid _ >>= λ on_true g2 (t, n2, _, _, e2).
      named_block-Extends e2.valid _ >>= λ on_false g3 (f, n3, _, _, e3).
      named_block-Extends e3.valid _ >>= λ end g4 (d, n4, no_true, no_false, e4).
      let free : (b : ℕ) → n < b → b < end → IsFree n end g4.next_block_number b = λ b l h. record {
        above = l;
        other = λ e. omega (arith, e, h);
        generated = omega (arith, h, n4);
        low_generated = omega (arith, s, n1, t, n2, f, n3, d, n4);
        pinned_generated = omega (arith, n4);
      } in
      let at_start = free start (omega (arith, s)) (omega (arith, n1, t, n2, f, n3, d)) in
      let at_true = free on_true (omega (arith, s, n1, t)) (omega (arith, n2, f, n3, d)) in
      let at_false = free on_false (omega (arith, s, n1, t, n2, f)) (omega (arith, n3, d)) in
      let new : n < end = omega (arith, s, n1, t, n2, f, n3, d) in
      fill_operator-Extends e4.valid at_start at_true at_false
        (omega (arith, new), omega (arith, n4))
      >>= λ name g11 e411.
          let at_end : IsFree n n g11.next_block_number end = record {
            above = new;
            other = λ e. omega (arith, e, new);
            generated = omega (arith, n4, e411.grows);
            low_generated = omega (arith, new, n4, e411.grows);
            pinned_generated = omega (arith, new, n4, e411.grows);
          } in
          add_to-with_instruction e411.valid _ (free-IsGenerated at_end) >>= λ _ g12 (m12, added).
          let grown : g4.next_block_number ≤ g12.next_block_number =
            omega (arith, e411.grows, m12.grows) in
          let same = e411.kept end (omega (arith, n4)) (inr refl) in
          pure_lem (record {
            extends = Extends-trans e1 (
                Extends-trans e2 (
                  Extends-trans e3 (
                    Extends-trans e4
                      (Extends-trans (lowered (omega arith) e411) (Moves-Extends at_end m12)))));
            at_start = IsFree-≤ at_start grown;
            at_true = IsFree-≤ at_true grown;
            at_false = IsFree-≤ at_false grown;
            end_new = new;
            no_when_true = m12.when_true ∙ ap (λ x. x.exit_when_true) same ∙ no_true;
            no_when_false = m12.when_false ∙ ap (λ x. x.exit_when_false) same ∙ no_false;
            last = rw added (last_of-added _ _);
          })

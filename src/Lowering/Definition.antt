-- ===== src/Lowering/Definition.antt =====
-- FunctionDefinition.cpp: the blocks of a function definition are built on a valid graph.
use caramel.Prelude.{
  ℕ, suc, ◌≤◌, ◌≡◌, inl, refl, ◌∙◌, ap, Bool, false, String, some, List, All, arith, is_some,
}
use caramel.Symbols.{FunctionParameterSignature}
use caramel.Graph.{Graph, generate_function_block, enter, add_function_bb_end}
use caramel.Graph.Chain.{get_new_when_true_basic_block-exit}
use caramel.Graph.Exits.{set_exit_when_true-IsExited, IsExited-Extends}
use caramel.Graph.Ensured.{Ensured, ◌>>=◌, pure_lem, read, done}
use caramel.Graph.Extends.{
  IsRooted-≤, IsGenerated, IsValid, Extends, Extends-trans, Moves-Extends, Extends-IsFree,
}
use caramel.Graph.Operations.{
  new_block-IsFree, add_to-Moves, store_kept, store_closed, named_block-Extends,
}
use caramel.Code.{Code}
use caramel.Code.Functions.{function_definition}
use caramel.Lowering.{IsCode}
use caramel.Lowering.Functions.{
  frames-Extends, add_parameters-Extends, add_function_statements-Extends,
}
use caramel.Lowering.Logic.{free-IsGenerated}

-- The blocks of a function, after those that were there.
pub record IsDefined (g : Graph) (first : ℕ) (g' : Graph) : Type 0 where
  pub grows : g.next_block_number ≤ g'.next_block_number
  pub kept : (k : ℕ) → k ≤ g.next_block_number → g'.blocks k ≡ g.blocks k
  pub here : IsGenerated g'.next_block_number (some first)
  pub valid : IsValid g'

module _ {total : Bool} where
  generate_function_block-IsDefined :
      {g : Graph} (name : String)
      → IsValid g
      → Ensured total (generate_function_block name) g (λ root g'.
        (root ≡ suc g.next_block_number) × (g'.next_block_number ≡ root) × IsDefined g root g')
  unfolding generate_function_block
  generate_function_block-IsDefined {g = g} name v =
      let id = suc g.next_block_number in
      done id _ refl (
        refl,
        refl,
        record {
          grows = omega arith;
          kept = λ k l. store_kept g.blocks id _ k (λ e. omega (arith, l, e));
          here = (omega arith, omega arith);
          valid = record {
            closed = store_closed g.blocks id _ _ _ (omega arith) v.closed tt tt;
            rooted = IsRooted-≤ _ (omega arith) v.rooted;
          };
        },
      )

  -- The frame of the function, and the block that it ends with, are noted.
  enter-Extends :
      {low pinned : ℕ} {g : Graph} (id : ℕ)
      → IsValid g
      → Ensured total (enter id) g (λ _ g'. Extends low pinned g g')
  unfolding enter
  enter-Extends id v = done tt _ refl (frames-Extends _ v)

  add_function_bb_end-Extends :
      {low pinned : ℕ} {g : Graph} (context id : ℕ)
      → IsValid g
      → Ensured total
          (add_function_bb_end context id)
          g
          (λ _ g'. Extends low pinned g g' × ((k : ℕ) → g'.blocks k ≡ g.blocks k))
  unfolding add_function_bb_end
  add_function_bb_end-Extends context id v = done tt _ refl (
    record {
      grows = omega arith;
      kept = λ k h p. refl;
      valid = record { closed = v.closed; rooted = IsRooted-≤ _ (omega arith) v.rooted };
      ends = refl;
      context = refl;
    },
    λ k. refl,
  )

  pub function_definition-IsDefined :
      (name : String) (ps : List FunctionParameterSignature) (cs : List Code)
      → All (IsCode total false) cs
      → (g : Graph) → IsValid g
      → Ensured total (function_definition name ps cs) g (λ x g'. IsDefined g x.0 g')
  unfolding function_definition
  function_definition-IsDefined name ps cs all g v =
      let n = g.next_block_number in
      generate_function_block-IsDefined name v >>= λ root g1 (r, next, d).
      let f1 = new_block-IsFree {low = n} {pinned = n} (omega arith) (omega arith) r next in
      enter-Extends root d.valid >>= λ _ g2 e2.
      add_to-Moves e2.valid _ (free-IsGenerated (Extends-IsFree e2 f1)) >>= λ _ g3 m3.
      let e13 = Extends-trans e2 (Moves-Extends (Extends-IsFree e2 f1) m3) in
      add_parameters-Extends 0 ps g3 root m3.valid (Extends-IsFree e13 f1) >>= λ _ g4 e4.
      let e14 = Extends-trans e13 e4 in
      named_block-Extends e4.valid _ >>= λ end g5 (i, next5, _, _, e5).
      let e15 = Extends-trans e14 e5 in
      let f5 = Extends-IsFree e15 f1 in
      let f_end =
        new_block-IsFree {low = n} {pinned = n} (omega (arith, f1.low_generated, e14.grows))
          (omega (arith, f1.low_generated, e14.grows)) i next5 in
      set_exit_when_true-IsExited e5.valid root (some end) (free-IsGenerated f_end) >>= λ _ g6 s6.
      let e6 = IsExited-Extends f5 s6 in
      read _ _ (
        add_function_bb_end-Extends _ end e6.valid >>= λ _ g7 (e7, same).
        let e57 = Extends-trans e6 e7 in
        get_new_when_true_basic_block-exit _ e7.valid (Extends-IsFree e57 f5)
        >>= λ inner g8 (f8, e8, leads).
            let e58 = Extends-trans e57 e8 in
            add_function_statements-Extends cs all g8 inner e8.valid
              (free-IsGenerated (Extends-IsFree e58 f_end))
              (record {
                free = f8;
                leads = ap is_some (leads ∙ ap (λ x. x.exit_when_true) (same root) ∙ s6.at_true);
              })
            >>= λ _ g9 e9.
                let e59 = Extends-trans e58 e9 in
                add_to-Moves e9.valid _ (free-IsGenerated (Extends-IsFree e59 f_end))
                >>= λ _ g10 m10.
                    let e110 =
                      Extends-trans e15
                        (Extends-trans e59 (Moves-Extends (Extends-IsFree e59 f_end) m10)) in
                    pure_lem (record {
                      grows = omega (arith, d.grows, e110.grows);
                      kept = λ k h. e110.kept k (omega (arith, h, d.grows)) (inl h) ∙ d.kept k h;
                      here = free-IsGenerated (Extends-IsFree e110 f1);
                      valid = e110.valid;
                    }))

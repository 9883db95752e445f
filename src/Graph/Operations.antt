-- ===== src/Graph/Operations.antt =====
-- src/ir/CFG.cpp, src/ir/BasicBlock.cpp: the operations on the graph keep it valid.
use caramel.Prelude.{
  ◌⊎◌, ◌≤◌, sym, ◌∙◌, suc, String, Option, none, ℕ, ◌==◌, ◌≡◌, ◌≢◌, inl, inr, refl, ap, Bool, true,
  some, arith, Bool-cases,
}
use caramel.Ir.{Instruction}
use caramel.Blocks.{Block, add_instruction, with_instruction}
use caramel.Blocks.Registered.{IsRegistered, register-IsRegistered}
use caramel.Graph.{
  set_exit_when_true, set_exit_when_false, named_block, get_next_number_name, generate_basic_block,
  ◌>>=◌, Graph, store, create_var_name, add_to,
}
use caramel.Graph.Ensured.{Ensured, weaken, done}
use caramel.Graph.Extends.{IsRooted-≤, IsFree, Extends, IsGenerated-≤, IsGenerated, IsValid, Moves}

-- A block stored under a number.
module _ (blocks : ℕ → Block) (b : ℕ) (block : Block) where
  pub store_kept : (k : ℕ) → k ≢ b → store b block blocks k ≡ blocks k
  store_kept k n = elim (Bool-cases (k == b)) [
    | inl e ↦ absurd (n (ground arith))
    | inr e ↦ rw e refl
  ]

  pub store_at : store b block blocks b ≡ block
  store_at = rw (same b) refl
    where
      same : (n : ℕ) → (n == n) ≡ true
      same n = ground arith

  pub store_closed :
      (n m : ℕ)
      → n ≤ m
      → ((k : ℕ)
          → IsGenerated n (blocks k).exit_when_true × IsGenerated n (blocks k).exit_when_false)
      → IsGenerated m block.exit_when_true
      → IsGenerated m block.exit_when_false
      → (k : ℕ)
      → IsGenerated m (store b block blocks k).exit_when_true
        × IsGenerated m (store b block blocks k).exit_when_false
  store_closed n m le h t f k = elim (Bool-cases (k == b)) [
    | inl e ↦ rw e (t, f)
    | inr e ↦ rw e (IsGenerated-≤ _ le (h k).0, IsGenerated-≤ _ le (h k).1)
  ]

pub free_kept :
    {low pinned b n : ℕ} (f : IsFree low pinned n b) (k : ℕ) → (k ≤ low) ⊎ (k ≡ pinned) → k ≢ b
free_kept f k (inl p) e = omega (arith, p, e, f.above)
free_kept f k (inr p) e = f.other (sym e ∙ p)

-- A new block is free.
pub new_block-IsFree :
    {low pinned n id n' : ℕ} → low ≤ n → pinned ≤ n → id ≡ suc n → n' ≡ id → IsFree low pinned n' id
new_block-IsFree l p e m = record {
  above = omega (arith, l, e);
  other = λ q. omega (arith, p, e, q);
  generated = omega (arith, m);
  low_generated = omega (arith, l, e, m);
  pinned_generated = omega (arith, p, e, m);
}

module _ {total : Bool} {g : Graph} (v : IsValid g) where
  pub create_var_name-Moves :
      {b : ℕ}
      → IsGenerated g.next_block_number (some b)
      → Ensured total create_var_name g (λ name g'. Moves g b g' b)
  unfolding create_var_name
  create_var_name-Moves h = done _ _ refl (record {
    grows = omega arith;
    here = h;
    from = inl refl;
    kept = λ k l n. refl;
    when_true = refl;
    when_false = refl;
    valid = record { closed = v.closed; rooted = IsRooted-≤ _ (omega arith) v.rooted };
    ends = refl;
    context = refl;
  })

  pub add_to-with_instruction :
      {b : ℕ} (i : Instruction)
      → IsGenerated g.next_block_number (some b)
      → Ensured total
          (add_to b i)
          g
          (λ name g'. Moves g b g' b × (g'.blocks b ≡ with_instruction i (g.blocks b)))
  unfolding add_to add_instruction
  add_to-with_instruction {b = b} i h = added (register-IsRegistered i _ _)
    where
      added :
          IsRegistered i (g.blocks b).function_context g.frames
          → Ensured total
              (add_to b i)
              g
              (λ name g'. Moves g b g' b × (g'.blocks b ≡ with_instruction i (g.blocks b)))
      added r =
          let block = with_instruction i (g.blocks b) in
          done i.return_name (record g { blocks = store b block g.blocks; frames = r.frames' })
            (rw (add_to, add_instruction, r.ran) refl)
            (
              record {
                grows = omega arith;
                here = h;
                from = inl refl;
                kept = λ k l n. store_kept g.blocks b block k n;
                when_true = ap (λ x. x.exit_when_true) (store_at g.blocks b block);
                when_false = ap (λ x. x.exit_when_false) (store_at g.blocks b block);
                valid = record {
                  closed =
                      store_closed g.blocks b block _ _ (omega arith) v.closed (v.closed b).0
                        (v.closed b).1;
                  rooted = IsRooted-≤ _ (omega arith) v.rooted;
                };
                ends = refl;
                context = refl;
              },
              store_at g.blocks b block,
            )

  pub add_to-Moves :
      {b : ℕ} (i : Instruction)
      → IsGenerated g.next_block_number (some b)
      → Ensured total (add_to b i) g (λ name g'. Moves g b g' b)
  add_to-Moves i h = weaken (add_to-with_instruction i h) (λ name g' (m, _). m)

  -- A block that is free takes other exits.
  module _ {low pinned b : ℕ} (f : IsFree low pinned g.next_block_number b) where
    pub set_exit_when_true-Extends :
        (exit : Option ℕ)
        → IsGenerated g.next_block_number exit
        → Ensured total (set_exit_when_true b exit) g (λ _ g'. Extends low pinned g g')
    unfolding set_exit_when_true
    set_exit_when_true-Extends exit h = done tt _ refl (record {
      grows = omega arith;
      kept = λ k l p. store_kept g.blocks b _ k (free_kept f k p);
      valid = record {
        closed = store_closed g.blocks b _ _ _ (omega arith) v.closed h (v.closed b).1;
        rooted = IsRooted-≤ _ (omega arith) v.rooted;
      };
      ends = refl;
      context = refl;
    })

    pub set_exit_when_false-Extends :
        (exit : Option ℕ)
        → IsGenerated g.next_block_number exit
        → Ensured total (set_exit_when_false b exit) g (λ _ g'. Extends low pinned g g')
    unfolding set_exit_when_false
    set_exit_when_false-Extends exit h = done tt _ refl (record {
      grows = omega arith;
      kept = λ k l p. store_kept g.blocks b _ k (free_kept f k p);
      valid = record {
        closed = store_closed g.blocks b _ _ _ (omega arith) v.closed (v.closed b).0 h;
        rooted = IsRooted-≤ _ (omega arith) v.rooted;
      };
      ends = refl;
      context = refl;
    })

  -- A new block has the next number, and no exits.
  pub named_block-Extends :
      {low pinned : ℕ} (suffix : String)
      → Ensured total (named_block suffix) g (λ id g'.
        (id ≡ suc g.next_block_number)
        × (g'.next_block_number ≡ id)
        × ((g'.blocks id).exit_when_true ≡ none)
        × ((g'.blocks id).exit_when_false ≡ none)
        × Extends low pinned g g')
  unfolding named_block get_next_number_name generate_basic_block ◌>>=◌
  named_block-Extends suffix =
      let id = suc g.next_block_number in
      done id _ refl (
        refl,
        refl,
        ap (λ x. x.exit_when_true) (store_at g.blocks id _),
        ap (λ x. x.exit_when_false) (store_at g.blocks id _),
        record {
          grows = omega arith;
          kept = λ k l p. store_kept g.blocks id _ k (λ e. omega (arith, l, e));
          valid = record {
            closed = store_closed g.blocks id _ _ _ (omega arith) v.closed tt tt;
            rooted = IsRooted-≤ _ (omega arith) v.rooted;
          };
          ends = refl;
          context = refl;
        },
      )
